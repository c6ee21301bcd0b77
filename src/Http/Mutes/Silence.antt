-- ===== src/Http/Mutes/Silence.antt =====
-- Whom a push reaches after a PUT of the mutes.
use aul_private_location.Base.{
  ℕ, ◌≡◌, refl, ap, ◌∙◌, Bool, true, false, not, ◌&&◌, ◌||◌, some, List, [], ◌∷◌, map, arith, ◌==◌,
  has, select, any_row,
}
use aul_private_location.Store.Schema.{CircleMember, NotificationMute, PushSubscription}
use aul_private_location.Store.{ok, World}
use aul_private_location.Store.Push.{mutes_target, silences, reaches}
use aul_private_location.Http.Mutes.{MuteSet, handle_set_mutes}
use aul_private_location.Http.Mutes.Inserting.{targets}
use aul_private_location.Http.Mutes.Replacing.{asked, set_mutes-Replaced, deduped-has}

silences-targets :
    (user circle sender : ℕ) (rows : List NotificationMute)
    → any_row (silences user circle sender) rows
      ≡ any_row (mutes_target sender) (targets user circle rows)
unfolding any_row select
silences-targets user circle sender [] = refl
silences-targets user circle sender (r ∷ rows) =
    ground (arith, silences-targets user circle sender rows)

mutes_target-some :
    (sender : ℕ) (ids : List ℕ) → any_row (mutes_target sender) (map some ids) ≡ has sender ids
unfolding any_row has
mutes_target-some sender [] = refl
mutes_target-some sender (id ∷ ids) = ground (arith, mutes_target-some sender ids)

mutes_target-asked :
    (sender : ℕ) (whole : Bool) (ids : List ℕ)
    → any_row (mutes_target sender) (asked whole ids) ≡ (whole || has sender ids)
unfolding any_row
mutes_target-asked sender true ids = refl
mutes_target-asked sender false ids = mutes_target-some sender ids

-- After a PUT of the mutes that succeeds, a push of a sender in the circle reaches a subscription of
-- the caller exactly when the caller is a member, is not the sender, and asked neither to mute the
-- circle nor to mute that sender.
pub set_mutes-reaches :
    (now sender : ℕ) (m : CircleMember) (req dto : MuteSet) (w : World) (s : PushSubscription)
    → (handle_set_mutes now m (some req) w).0 ≡ ok dto
    → s.user_id ≡ m.user_id
    → let after = (handle_set_mutes now m (some req) w).1.db in
      reaches m.circle_id sender after.members after.mutes s ≡ (
        any_row (λ c. c.circle_id == m.circle_id && c.user_id == m.user_id) after.members
        && not (m.user_id == sender)
        && not (req.circle_muted || has sender req.muted_user_ids))
unfolding has
set_mutes-reaches now sender m req dto w s e h =
    let after = (handle_set_mutes now m (some req) w).1.db in
    let r = set_mutes-Replaced now m req dto w e in
    let quiet : any_row (silences m.user_id m.circle_id sender) after.mutes
        ≡ (req.circle_muted || has sender req.muted_user_ids) =
      silences-targets m.user_id m.circle_id sender after.mutes
      ∙ ap (any_row (mutes_target sender)) r.kept
      ∙ mutes_target-asked sender dto.circle_muted dto.muted_user_ids
      ∙ ap (λ b. b || has sender dto.muted_user_ids) r.whole
      ∙ ap (λ b. req.circle_muted || b)
          (deduped-has m.user_id sender req.muted_user_ids [] dto.muted_user_ids r.once refl) in
    rw (h, quiet) refl
