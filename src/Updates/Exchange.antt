-- ===== src/Updates/Exchange.antt =====
-- A model in one packet, from the call that sends it to the callback of its receiver.
use quinkgl_framework.Common.{String, ◌≡◌, ◌≢◌, true, Option, [], nat_eq, string_eq, pair_eq}
use quinkgl_framework.Transport.Words.{Bytes}
use quinkgl_framework.Transport.Host.{Host}
use quinkgl_framework.Transport.State.{Community}

module _ (host : Host) (sign : Bytes → Bytes) (sender receiver : Community)
    (sender_mid : String) where
  -- The sender has the key that the receiver knows it by.
  abbrev pub HasKey : Type 0
  HasKey =
      (text : Bytes) → (host.sign text ≢ []) × (host.verify sender_mid (host.sign text) text ≡ true)
