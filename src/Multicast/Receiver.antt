-- ===== src/Multicast/Receiver.antt =====
-- multicast.hpp: MulticastReceiver.
use syseng.Base.{ℕ, Bool, false, List, [], ◌∷◌, if◌then◌else◌}
use syseng.Base.Int.{ℤ, pos, minus_one, leb_ℤ}
use syseng.Multicast.{QuoteMsg}

record MulticastReceiver : Type 0 where
  fd_ : ℤ
  packets_received_ : ℕ
  gaps_detected_ : ℕ

abbrev construct : MulticastReceiver
construct = record { fd_ = minus_one; packets_received_ = 0; gaps_detected_ = 0 }

-- The descriptors that the destructor closes.
unfoldable destroy : MulticastReceiver → List ℤ
destroy r = if leb_ℤ (pos 0) r.fd_ then r.fd_ ∷ [] else []

unfoldable init : MulticastReceiver → Bool × MulticastReceiver
init r = (false, r)

-- `out` stays as it was.
unfoldable recv_one : QuoteMsg → MulticastReceiver → Bool × QuoteMsg × MulticastReceiver
recv_one out r = (false, out, r)

unfoldable packets_received : MulticastReceiver → ℕ
packets_received r = r.packets_received_

unfoldable gaps_detected : MulticastReceiver → ℕ
gaps_detected r = r.gaps_detected_
