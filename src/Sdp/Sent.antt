-- ===== src/Sdp/Sent.antt =====
-- src/sdp_filter.cpp: the offer that a leg sends on, against the one that the other leg received.
use sems_yeti.Prelude.{ℕ, ◌≡◌, List, [], ◌∷◌, filter, if◌then◌else◌}
use sems_yeti.Prelude.Classes.{nat_eq}
use sems_yeti.Prelude.Map.{Map}
use sems_yeti.Sdp.{Core, Sdp, Media, MediaType, Payload, is_audio}
use sems_yeti.Sdp.Mapping.{Masks}
use sems_yeti.Sdp.Process.{Wire, Profile, clear_media_ice}

-- No stream has a parameter of ICE.
abbrev pub NoIce : List Media → Type 0
NoIce [] = Unit {0}
NoIce (m ∷ ms) = (clear_media_ice m ≡ m) × NoIce ms

module _ {Body : Type 0} (wire : Wire Body) (core : Core) (groups : Map ℕ (List Payload))
    {Mask : Type 0} (masks : Masks Mask) (limit : ℕ) where
  -- What becomes of the types of the streams.
  abbrev pub sent_types : Profile → List MediaType → List MediaType
  sent_types profile ts = if profile.filter_noaudio_streams then filter is_audio ts else ts
