-- ===== src/Sip/Method.antt =====
-- sip/sip-types/src/method.rs: the methods. A `BytesStr` is a text.
use Prim.Native.String.{String}

pub data Method : Type 0 where
  invite ack cancel bye register message update prack options subscribe notify publish info refer :
      Method
  other : String → Method
