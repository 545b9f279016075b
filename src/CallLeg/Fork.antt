-- ===== src/CallLeg/Fork.antt =====
-- src/CallLeg.cpp: of the legs that are tried for a caller, one answers.
use mathlib.Core.List.{append-nil}
use sems_yeti.Prelude.{
  ℕ, ltb, ◌≡◌, ◌≢◌, refl, sym, ap, ◌∙◌, inl, inr, Bool, true, false, List, [], ◌∷◌, ◌++◌, Option,
  none, some, if◌then◌else◌, arith, Bool-cases,
}
use sems_yeti.Prelude.Classes.{Text, text_eq, text_eq_iff, text_key}
use sems_yeti.Prelude.Map.{Map, find}
use sems_yeti.CallLeg.{
  connected, Reply, CallLeg, Effect, terminate_leg, call_connected, relay_reply, update_call_status,
  terminate_not_connected_legs, set_other, terminated, attach_media, connect_media, accept_relay,
}
use sems_yeti.CallLeg.Replies.{
  Session, is_initial_reply, is_late_final, complete, b2b_initial_2xx, on_initial_reply,
  on_b2b_reply, ReplyEvent, run,
}

-- The legs that are told to end, and the replies that are relayed, in order.
abbrev pub terminations : List Effect → List Text
terminations [] = []
terminations (terminate_leg id ∷ es) = id ∷ terminations es
terminations (_ ∷ es) = terminations es

abbrev pub relayed : List Effect → List Reply
relayed [] = []
relayed (relay_reply r ∷ es) = r ∷ relayed es
relayed (_ ∷ es) = relayed es

-- The names of the legs but one.
abbrev pub others : Text → Map Text (Option ℕ) → List Text
others id [] = []
others id ((j, m) ∷ legs) = let rest = others id legs in if text_eq j id then rest else j ∷ rest

terminations-append : (a b : List Effect) → terminations (a ++ b) ≡ terminations a ++ terminations b
terminations-append [] b = refl
terminations-append (terminate_leg id ∷ a) b = ap (◌∷◌ id) (terminations-append a b)
terminations-append (_ ∷ a) b = terminations-append a b

relayed-append : (a b : List Effect) → relayed (a ++ b) ≡ relayed a ++ relayed b
relayed-append [] b = refl
relayed-append (relay_reply r ∷ a) b = ap (◌∷◌ r) (relayed-append a b)
relayed-append (_ ∷ a) b = relayed-append a b

-- No leg is told to end, and no reply is relayed.
abbrev Quiet : List Effect → Type 0
Quiet es = (terminations es ≡ []) × (relayed es ≡ [])

Quiet-append : (a b : List Effect) → Quiet a → Quiet b → Quiet (a ++ b)
Quiet-append a b (ta, ra) (tb, rb) =
    (terminations-append a b ∙ ground (arith, ta, tb), relayed-append a b ∙ ground (arith, ra, rb))

terminated-others :
    (id : Text) (legs : Map Text (Option ℕ))
    → (terminations (terminated id legs) ≡ others id legs) × (relayed (terminated id legs) ≡ [])
unfolding terminated
terminated-others id [] = (refl, refl)
terminated-others id ((j, m) ∷ legs) = elim (Bool-cases (text_eq j id)) [
  | inl self ↦ rw self (terminated-others id legs)
  | inr other ↦ rw other (ap (◌∷◌ j) (terminated-others id legs).0, (terminated-others id legs).1)
]

connect_media-Quiet :
    (m : Option ℕ) (leg : CallLeg)
    → Quiet (connect_media m leg).1
      × ((connect_media m leg).0.other_id ≡ leg.other_id)
      × ((connect_media m leg).0.other_legs ≡ leg.other_legs)
connect_media-Quiet (some k) leg = ((refl, refl), refl, refl)
connect_media-Quiet none leg = ((ground arith, ground arith), refl, refl)

attach_media-Quiet :
    (o m : Option ℕ) (leg : CallLeg)
    → Quiet (attach_media o m leg).1
      × ((attach_media o m leg).0.other_id ≡ leg.other_id)
      × ((attach_media o m leg).0.other_legs ≡ leg.other_legs)
attach_media-Quiet (some k) m leg = ((refl, refl), refl, refl)
attach_media-Quiet none m leg = connect_media-Quiet m leg

accept_relay-Quiet : (forward : Bool) (leg : CallLeg) → Quiet (accept_relay forward leg).1
accept_relay-Quiet forward leg = (ground arith, ground arith)

-- A leg that is among the others becomes the peer, and nothing else is sent.
set_other-found :
    (id : Text) (forward : Bool) (leg : CallLeg) (m : Option ℕ)
    → find id leg.other_legs ≡ some m
    → ((set_other id forward leg).0 ≡ true)
      × ((set_other id forward leg).1.0.other_id ≡ id)
      × ((set_other id forward leg).1.0.other_legs ≡ leg.other_legs)
      × Quiet (set_other id forward leg).1.1
unfolding set_other
set_other-found id forward leg m h = elim (Bool-cases (text_eq leg.other_id id)) [
  | inl peer ↦ rw peer (refl, (text_eq_iff leg.other_id id).0 peer, refl, (refl, refl))
  | inr new ↦
      let l = record leg { other_id = id } in
      let (q, same_id, same_legs) = attach_media-Quiet leg.media_session m l in
      let a = attach_media leg.media_session m l in
      rw (new, h)
        (
          refl,
          same_id,
          same_legs,
          Quiet-append a.1 (accept_relay forward a.0).1 q (accept_relay-Quiet forward a.0),
        )
]

-- The leg is connected to `id` and knows no other leg.
abbrev pub ConnectedTo : Text → CallLeg → Type 0
ConnectedTo id leg = (leg.call_status ≡ connected) × (leg.other_id ≡ id) × (leg.other_legs ≡ [])

abbrev pub relayed_answer : Bool → Reply → List Reply
relayed_answer forward reply = if forward then reply ∷ [] else []

-- Replies that another leg than `id` has sent.
abbrev pub AllFromOthers : Text → List ReplyEvent → Type 0
AllFromOthers id [] = Unit {0}
AllFromOthers id (e ∷ es) = (e.reply.from_tag ≢ id) × (e.sender_ltag ≢ id) × AllFromOthers id es

text_eq-ne : (s t : Text) → s ≢ t → text_eq s t ≡ false
text_eq-ne s t h = elim (Bool-cases (text_eq s t)) [
  | inl same ↦ absurd (h ((text_eq_iff s t).0 same))
  | inr other ↦ other
]

module _ (session : Session) where
  complete-answers :
      (reply : Reply) (forward : Bool) (leg : CallLeg)
      → ((complete session true reply forward leg).0.call_status ≡ connected)
        × ((complete session true reply forward leg).0.other_id ≡ leg.other_id)
        × ((complete session true reply forward leg).0.other_legs ≡ leg.other_legs)
        × (terminations (complete session true reply forward leg).1 ≡ [])
        × (relayed (complete session true reply forward leg).1 ≡ relayed_answer forward reply)
  unfolding update_call_status
  complete-answers reply true leg = (refl, refl, refl, refl, refl)
  complete-answers reply false leg = (refl, refl, refl, refl, refl)

  b2b_initial_2xx-answers :
      (reply : Reply) (forward : Bool) (leg : CallLeg) (m : Option ℕ)
      → find reply.from_tag leg.other_legs ≡ some m
      → ConnectedTo reply.from_tag (b2b_initial_2xx session true reply forward leg).0
        × (terminations (b2b_initial_2xx session true reply forward leg).1
            ≡ others reply.from_tag leg.other_legs)
        × (relayed (b2b_initial_2xx session true reply forward leg).1
            ≡ relayed_answer forward reply)
  unfolding b2b_initial_2xx terminate_not_connected_legs
  b2b_initial_2xx-answers reply forward leg m h =
      let (found, named, legs, quiet) = set_other-found reply.from_tag forward leg m h in
      let peer = (set_other reply.from_tag forward leg).1 in
      let gone = terminated peer.0.other_id peer.0.other_legs in
      let alone = record peer.0 { other_legs = [] } in
      let end = complete session true reply forward alone in
      let before = peer.1 ++ gone in
      let (said, told) = terminated-others peer.0.other_id peer.0.other_legs in
      let called = call_connected reply ∷ [] in
      let (status, id, none_left, silent, sent) = complete-answers reply forward alone in
      rw found (
        (status, id ∙ named, none_left),
        terminations-append (before ++ called) end.1
            ∙ ground (
              arith,
              terminations-append before called,
              terminations-append peer.1 gone,
              said,
              named,
              legs,
              quiet,
              silent,
              append-nil (others reply.from_tag leg.other_legs),
            ),
        relayed-append (before ++ called) end.1
            ∙ ground (
              arith,
              relayed-append before called,
              relayed-append peer.1 gone,
              told,
              quiet,
              sent,
            ),
      )

  -- A reply of another leg once the leg is connected.
  late_reply :
      (e : ReplyEvent) (id : Text) (leg : CallLeg)
      → ConnectedTo id leg
      → e.reply.from_tag ≢ id
      → e.sender_ltag ≢ id
      → ((on_b2b_reply session e.fork e.relays e.reply e.forward e.sender_ltag leg).0 ≡ leg)
        × Quiet (on_b2b_reply session e.fork e.relays e.reply e.forward e.sender_ltag leg).1
  unfolding on_b2b_reply set_other find
  late_reply e id leg (status, named, none_left) f g =
      let peer = text_eq-ne leg.other_id e.reply.from_tag (λ q. f (sym q ∙ named)) in
      let sender = text_eq-ne leg.other_id e.sender_ltag (λ q. g (sym q ∙ named)) in
      let later : is_initial_reply session e.reply e.forward leg ≡ false = ground (arith, status) in
      let unknown : find e.reply.from_tag leg.other_legs ≡ none = rw none_left refl in
      let none_set : set_other e.reply.from_tag false leg ≡ (false, (leg, [])) =
        rw (peer, unknown) refl in
      elim (Bool-cases (is_late_final session e.reply leg)) [
        | inr other ↦ rw (later, other, peer, sender) (refl, (refl, refl))
        | inl final ↦ elim (Bool-cases (ltb e.reply.code 300)) [
          | inl positive ↦ rw (later, final, positive, none_set) (refl, (refl, refl))
          | inr negative ↦ rw (later, final, negative) (refl, (refl, refl))
        ]
      ]

  late_replies :
      (es : List ReplyEvent) (id : Text) (leg : CallLeg)
      → ConnectedTo id leg
      → AllFromOthers id es
      → ((run session es leg).0 ≡ leg) × Quiet (run session es leg).1
  unfolding run
  late_replies [] id leg c a = (refl, (refl, refl))
  late_replies (e ∷ es) id leg c (f, g, a) =
      let (same, quiet) = late_reply e id leg c f g in
      let first = on_b2b_reply session e.fork e.relays e.reply e.forward e.sender_ltag leg in
      let rest : ((run session es first.0).0 ≡ leg) × Quiet (run session es first.0).1 =
        rw same (late_replies es id leg c a) in
      (rest.0, Quiet-append first.1 (run session es first.0).1 quiet rest.1)

  -- For a leg that is not connected yet, whatever legs are tried for it, and a 2xx reply of one of them that
  -- counts as an initial one and can be relayed: after this reply, and any replies of other legs that follow
  -- it, provisional or final, the leg is connected to the one that answered and knows no other; of the legs
  -- that were tried, each but the one that answered has been told to end, once and in the order of the map;
  -- and no reply but the 2xx has been relayed, that one only if it is to be forwarded.
  pub answered_by_one :
      (leg : CallLeg) (e : ReplyEvent) (es : List ReplyEvent) (m : Option ℕ)
      → is_initial_reply session e.reply e.forward leg ≡ true
      → ltb e.reply.code 200 ≡ false
      → ltb e.reply.code 300 ≡ true
      → find e.reply.from_tag leg.other_legs ≡ some m
      → e.relays ≡ true
      → AllFromOthers e.reply.from_tag es
      → ConnectedTo e.reply.from_tag (run session (e ∷ es) leg).0
        × (terminations (run session (e ∷ es) leg).1 ≡ others e.reply.from_tag leg.other_legs)
        × (relayed (run session (e ∷ es) leg).1 ≡ relayed_answer e.forward e.reply)
  unfolding run on_b2b_reply on_initial_reply
  answered_by_one leg e es m initial final positive there ok late =
      let answered = b2b_initial_2xx session true e.reply e.forward leg in
      let (c, ended, sent) = b2b_initial_2xx-answers e.reply e.forward leg m there in
      let (same, quiet) = late_replies es e.reply.from_tag answered.0 c late in
      rw (initial, final, positive, ok)
        (
          rw same c,
          terminations-append answered.1 (run session es answered.0).1
              ∙ ground (arith, ended, quiet, append-nil (others e.reply.from_tag leg.other_legs)),
          relayed-append answered.1 (run session es answered.0).1
              ∙ ground (arith, sent, quiet, append-nil (relayed_answer e.forward e.reply)),
        )
