-- ===== src/Gateway/Channels.antt =====
-- The channel of a tenant, written by runtime/src/argus/services/ws_events.py and read by
-- runtime/src/argus/ws/pubsub.py.
use Prim.Native.Char.{code}
use Prim.Native.String
use text.Mathlib.TextLemmas.{nil-append, cons-append}
use argus_services.Prelude.{
  ◌≡◌, refl, ap, ◌∙◌, String, ◌==◌, none, some, Bool-cases, Option-cases, inl, inr, arith,
}
use argus_services.Gateway.Pubsub.{behind_colon, rsplit_last}

behind_colon-append_plain :
    (s t : String)
    → behind_colon t ≡ none
    → behind_colon s ≡ none
    → behind_colon (String.◌++◌ s t) ≡ none
unfolding behind_colon
behind_colon-append_plain String.[] t plain_text h = ap behind_colon (nil-append t) ∙ plain_text
behind_colon-append_plain (String.◌∷◌ c s) t plain_text h =
    ap behind_colon (cons-append c s t) ∙ elim (Option-cases (behind_colon s)) [
      | inl last ↦ elim (Bool-cases (code c == 58)) [
        | inl colon ↦ (let no = rw (last, colon) at h in cc)
        | inr other ↦ rw (behind_colon-append_plain s t plain_text last, other, behind_colon) refl
      ]
      | inr (r, more) ↦ (let no = rw more at h in cc)
    ]

-- A text without a colon, behind one that has some.
behind_colon-append :
    (s t : String) {r : String}
    → behind_colon t ≡ none
    → behind_colon s ≡ some r
    → behind_colon (String.◌++◌ s t) ≡ some (String.◌++◌ r t)
unfolding behind_colon
behind_colon-append String.[] t plain_text h = cc
behind_colon-append (String.◌∷◌ c s) t {r} plain_text h =
    ap behind_colon (cons-append c s t) ∙ elim (Option-cases (behind_colon s)) [
      | inl last ↦ elim (Bool-cases (code c == 58)) [
        | inl colon ↦
            let same : s ≡ r = ground (arith, rw (last, colon) at h) in
            rw (behind_colon-append_plain s t plain_text last, colon, behind_colon)
              (ap (λ q. some (String.◌++◌ q t)) same)
        | inr other ↦ (let no = rw (last, other) at h in cc)
      ]
      | inr (q, more) ↦
          let same : q ≡ r = ground (arith, rw more at h) in
          rw (behind_colon-append s t plain_text more, behind_colon)
            (ap (λ q. some (String.◌++◌ q t)) same)
    ]

channel_prefix : behind_colon "ws:room:" ≡ some ""
unfolding behind_colon
channel_prefix = refl

-- The room of a channel is the text that the channel was made for, when that text has no colon.
pub rsplit_last-channel :
    (room : String) → behind_colon room ≡ none → rsplit_last (String.◌++◌ "ws:room:" room) ≡ room
unfolding rsplit_last
rsplit_last-channel room h =
    rw (behind_colon-append "ws:room:" room h channel_prefix, rsplit_last) (nil-append room)
