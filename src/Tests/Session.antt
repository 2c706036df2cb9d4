-- ===== src/Tests/Session.antt =====
-- What packets on a shared socket are taken for.
use ezk.Common.{◌≡◌, refl, [], ◌∷◌}
use ezk.Session.PacketKind.{PacketKind, identify}

identify_rtcp : identify (128 ∷ 200 ∷ []) ≡ PacketKind.rtcp
unfolding identify
identify_rtcp = refl
