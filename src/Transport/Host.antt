-- ===== src/Transport/Host.antt =====
-- What the transport takes from code that is not its own: text encoding, SHA-256, the keys of
-- IPv8, the deserializer of models, and the byte order of `struct`'s native mode.
use quinkgl_framework.Common.{String, Bool}
use quinkgl_framework.Transport.Words.{Bytes, ByteOrder}

pub record Host : Type 0 where
  -- `text.encode("utf-8")`
  pub utf8 : String → Bytes
  -- `hashlib.sha256(data).digest()`
  pub sha256 : Bytes → Bytes
  -- `self.my_peer.key.signature(msg)`
  pub sign : Bytes → Bytes
  -- `peer.public_key.verify(signature, msg)` of the peer with a mid; an exception counts as false
  pub verify : String → Bytes → Bytes → Bool
  -- `deserialize_model(weights_bytes)` returns
  pub deserializes : Bytes → Bool
  pub byte_order : ByteOrder
