-- ===== src/Multicast/Sender.antt =====
-- multicast.hpp: MulticastSender, but for the address that the constructor sets to zero.
use syseng.Base.{Bool, false, List, [], ◌∷◌, if◌then◌else◌}
use syseng.Base.Int.{ℤ, pos, minus_one, leb_ℤ}
use syseng.Multicast.{QuoteMsg}

record MulticastSender : Type 0 where
  fd_ : ℤ

abbrev construct : MulticastSender
construct = record { fd_ = minus_one }

-- The descriptors that the destructor closes.
unfoldable destroy : MulticastSender → List ℤ
destroy s = if leb_ℤ (pos 0) s.fd_ then s.fd_ ∷ [] else []

unfoldable init : MulticastSender → Bool × MulticastSender
init s = (false, s)

unfoldable send : QuoteMsg → MulticastSender → Bool × MulticastSender
send msg s = (false, s)
