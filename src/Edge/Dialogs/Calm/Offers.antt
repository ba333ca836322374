-- ===== src/Edge/Dialogs/Calm/Offers.antt =====
-- The forks of a call and its session changes (internal/edge/dialog.go).
use freesbc.Base.{ℕ, ◌+◌, ◌-◌, String, refl, true, false, not, ◌||◌, text_discrete, ltb}
use freesbc.Base.Assoc.{put}
use freesbc.Edge.Dialogs.{is_early, DialogRoute, Dialog, DialogTable}
use freesbc.Edge.Dialogs.Calls.{
  update, begin_update_offer, end_update_offer, begin_reinvite_offer, end_reinvite_offer, fork_of,
  set_fork_route, set_fork_to,
}
use freesbc.Edge.Dialogs.Calm.{Calm, Calm-refl, plain-Calm, if_first, if_calm}

pub set_fork_route-Calm :
    (r : ℕ) (tag : String) (route : DialogRoute) (t : DialogTable)
    → Calm t (set_fork_route r tag route t)
unfolding set_fork_route
set_fork_route-Calm r tag route t =
    let f = λ (d : Dialog). record d {
      forks =
          put text_discrete tag (record (fork_of tag d) { route = route; routed = true }) d.forks;
    } in
    if_calm (Calm t) (not (is_early (t.store r).state)) t (update r f t) (Calm-refl t)
      (plain-Calm r f t (λ d. (refl, refl, refl, refl)))

pub set_fork_to-Calm :
    (r : ℕ) (tag uri : String) (t : DialogTable) → Calm t (set_fork_to r tag uri t)
unfolding set_fork_to
set_fork_to-Calm r tag uri t =
    let f = λ (d : Dialog). record d {
      forks = put text_discrete tag (record (fork_of tag d) { to = uri; to_set = true }) d.forks;
    } in
    if_calm (Calm t) (not (is_early (t.store r).state)) t (update r f t) (Calm-refl t)
      (plain-Calm r f t (λ d. (refl, refl, refl, refl)))

pub begin_update_offer-Calm : (r : ℕ) (t : DialogTable) → Calm t (begin_update_offer r t).0
unfolding begin_update_offer
begin_update_offer-Calm r t =
    let d = t.store r in
    let f = λ (d : Dialog). record d { last_ack = false; update_offers = d.update_offers + 1 } in
    if_first (Calm t) (ltb 0 d.update_offers || ltb 0 d.reinvite_offers || d.owed) (t, false)
      (update r f t, true) (Calm-refl t) (plain-Calm r f t (λ d. (refl, refl, refl, refl)))

pub begin_reinvite_offer-Calm : (r : ℕ) (t : DialogTable) → Calm t (begin_reinvite_offer r t).0
unfolding begin_reinvite_offer
begin_reinvite_offer-Calm r t =
    let d = t.store r in
    let f =
      λ (d : Dialog). record d { last_ack = false; reinvite_offers = d.reinvite_offers + 1 } in
    if_first (Calm t) (ltb 0 d.update_offers || d.owed) (t, false) (update r f t, true)
      (Calm-refl t) (plain-Calm r f t (λ d. (refl, refl, refl, refl)))

pub end_update_offer-Calm : (r : ℕ) (t : DialogTable) → Calm t (end_update_offer r t)
end_update_offer-Calm r t =
    plain-Calm r (λ d. record d { update_offers = d.update_offers - 1 }) t
      (λ d. (refl, refl, refl, refl))

pub end_reinvite_offer-Calm : (r : ℕ) (t : DialogTable) → Calm t (end_reinvite_offer r t)
end_reinvite_offer-Calm r t =
    plain-Calm r (λ d. record d { reinvite_offers = d.reinvite_offers - 1 }) t
      (λ d. (refl, refl, refl, refl))
