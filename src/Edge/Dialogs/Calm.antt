-- ===== src/Edge/Dialogs/Calm.antt =====
-- The operations of a call that neither bring it up nor end it (internal/edge/dialog.go).
pub mod Offers
use freesbc.Base.{
  ℕ, zero, suc, ◌+◌, ◌-◌, max, String, ◌≡◌, refl, sym, ap, ◌∙◌, inl, inr, Bool, true, false, not,
  ◌||◌, Option, none, some, ◌∷◌, arith, ℕ_discrete, text_discrete, ltb, ◌==◌, if◌then◌else◌,
  Bool-cases,
}
use freesbc.Base.Assoc.{put}
use mathlib.Core.Path.{subst}
use freesbc.Edge.Dialogs.{
  is_early, is_confirmed, is_ended, DialogRoute, Dialog, same, DialogTable, set_cell,
}
use freesbc.Edge.Dialogs.Calls.{
  update, attach, begin_update_offer, end_update_offer, begin_reinvite_offer, end_reinvite_offer,
  fork_of, set_fork_route, set_fork_to, track, mark_sent, untrack, CancelReason, is_orphan,
  is_by_caller, cancel_series, note_cseq, has_media,
}
use freesbc.Edge.Dialogs.Slots.{sum_upto, alive, up, unreported, Counts}

-- A record keeps its state and its Call-ID, and its media if it had any; a cancelled one stays
-- cancelled.
pub record Keeps (d e : Dialog) : Type 0 where
  pub same_state : e.state ≡ d.state
  pub same_call : e.call_id ≡ d.call_id
  pub same_media : has_media d.media ≡ true → has_media e.media ≡ true
  pub still_cancelled : d.cancelled ≡ true → e.cancelled ≡ true

-- All records do, and the table lists and counts the same.
pub record Calm (t u : DialogTable) : Type 0 where
  pub same_next : u.next ≡ t.next
  pub same_sessions : u.sessions ≡ t.sessions
  pub same_gauge : u.gauge ≡ t.gauge
  pub same_groups : u.by_call_id ≡ t.by_call_id
  pub same_closed : u.closed ≡ t.closed
  pub same_pending : u.pending ≡ t.pending
  pub each_keeps : (r : ℕ) → Keeps (t.store r) (u.store r)

abbrev kept : (d : Dialog) → Keeps d d
kept d = record {
  same_state = refl;
  same_call = refl;
  same_media = λ e. e;
  still_cancelled = λ e. e;
}

-- Nothing changes but what the calls' records do not hold.
Calm-same :
    (t u : DialogTable)
    → u.next ≡ t.next
    → u.sessions ≡ t.sessions
    → u.gauge ≡ t.gauge
    → u.by_call_id ≡ t.by_call_id
    → u.closed ≡ t.closed
    → u.pending ≡ t.pending
    → u.store ≡ t.store
    → Calm t u
Calm-same t u n s g b c p st = record {
  same_next = n;
  same_sessions = s;
  same_gauge = g;
  same_groups = b;
  same_closed = c;
  same_pending = p;
  each_keeps = λ r. rw st (kept (t.store r));
}

set_cell-Keeps :
    (t : DialogTable) (r : ℕ) (d : Dialog)
    → Keeps (t.store r) d
    → (k : ℕ) → Keeps (t.store k) (set_cell r d t.store k)
set_cell-Keeps t r d here k = elim (ℕ_discrete k r) [
  | yes e ↦
      let b : (k == r) ≡ true = ground (arith, e) in
      rw b (subst (λ j. Keeps (t.store j) d) (sym e) here)
  | no ne ↦ let b : (k == r) ≡ false = ground (arith, ne) in rw b (kept (t.store k))
]

pub update-Calm :
    (r : ℕ) (f : Dialog → Dialog) (t : DialogTable)
    → Keeps (t.store r) (f (t.store r))
    → Calm t (update r f t)
update-Calm r f t keeps = record {
  same_next = refl;
  same_sessions = refl;
  same_gauge = refl;
  same_groups = refl;
  same_closed = refl;
  same_pending = refl;
  each_keeps = set_cell-Keeps t r (f (t.store r)) keeps;
}

-- A test, or an option, decides between two calm ends.
pub if_first :
    {B : Type 0} (P : DialogTable → Type 0) (c : Bool) (x y : DialogTable × B)
    → P x.0
    → P y.0
    → P (if c then x else y).0
if_first P true x y px py = px
if_first P false x y px py = py

pub if_calm :
    (P : DialogTable → Type 0) (c : Bool) (x y : DialogTable) → P x → P y → P (if c then x else y)
if_calm P true x y px py = px
if_calm P false x y px py = py

option_first :
    {A B : Type 0} (P : DialogTable → Type 0) (o : Option A) (x : DialogTable × B)
    (y : A → DialogTable × B)
    → P x.0
    → ((a : A) → P (y a).0)
    → P (elim o as (λ z. DialogTable × B) [ none ↦ x | some a ↦ y a ]).0
option_first P none x y px py = px
option_first P (some a) x y px py = py a

pub Calm-refl : (t : DialogTable) → Calm t t
Calm-refl t = Calm-same t t refl refl refl refl refl refl refl

plain :
    (d e : Dialog)
    → e.state ≡ d.state
    → e.call_id ≡ d.call_id
    → e.media ≡ d.media
    → e.cancelled ≡ d.cancelled
    → Keeps d e
plain d e s c m k = record {
  same_state = s;
  same_call = c;
  same_media = λ h. ap has_media m ∙ h;
  still_cancelled = λ h. k ∙ h;
}

-- A change of the other fields of a record.
pub plain-Calm :
    (r : ℕ) (f : Dialog → Dialog) (t : DialogTable)
    → ((d : Dialog)
        → ((f d).state ≡ d.state)
          × ((f d).call_id ≡ d.call_id)
          × ((f d).media ≡ d.media)
          × ((f d).cancelled ≡ d.cancelled))
    → Calm t (update r f t)
plain-Calm r f t same =
    let (s, c, m, k) = same (t.store r) in
    update-Calm r f t (plain (t.store r) (f (t.store r)) s c m k)

pub attach-Calm : (r sess : ℕ) (t : DialogTable) → Calm t (attach r sess t).0
unfolding attach
attach-Calm r sess t =
    if_first (Calm t) (t.closed || is_ended (t.store r).state)
      (record t { media_closed = sess ∷ t.media_closed }, false)
      (update r (λ d. record d { media = some sess }) t, true)
      (Calm-same t (record t { media_closed = sess ∷ t.media_closed }) refl refl refl refl refl refl
        refl)
      (update-Calm r (λ d. record d { media = some sess }) t
        (record {
          same_state = refl;
          same_call = refl;
          same_media = λ e. refl;
          still_cancelled = λ e. e;
        }))

pub track-Calm : (r a : ℕ) (t : DialogTable) → Calm t (track r a t).0
unfolding track
track-Calm r a t =
    if_first (Calm t) (t.store r).cancelled (t, false)
      (update r (λ d. record d { in_flight = some a }) t, true) (Calm-refl t)
      (plain-Calm r (λ d. record d { in_flight = some a }) t (λ d. (refl, refl, refl, refl)))

pub mark_sent-Calm : (a : ℕ) (t : DialogTable) → Calm t (mark_sent a t).0
unfolding mark_sent
mark_sent-Calm a t = Calm-same t (mark_sent a t).0 refl refl refl refl refl refl refl

pub untrack-Calm : (r : ℕ) (t : DialogTable) → Calm t (untrack r t)
untrack-Calm r t =
    plain-Calm r (λ d. record d { in_flight = none }) t (λ d. (refl, refl, refl, refl))

pub note_cseq-Calm :
    (r : ℕ) (tag : String) (seq : ℕ) (t : DialogTable) → Calm t (note_cseq r tag seq t)
unfolding note_cseq
note_cseq-Calm r tag seq t =
    plain-Calm r
      (λ d.
        if same tag d.caller_tag
        then record d { caller_cseq = max d.caller_cseq seq }
        else record d { callee_cseq = max d.callee_cseq seq })
      t
      (λ d. elim (Bool-cases (same tag d.caller_tag)) [
        | inl e ↦ rw e (refl, refl, refl, refl)
        | inr e ↦ rw e (refl, refl, refl, refl)
      ])

pub cancel_series-Calm :
    (r : ℕ) (why : CancelReason) (t : DialogTable) → Calm t (cancel_series r why t).0
unfolding cancel_series
cancel_series-Calm r why t =
    let give_up = λ (d : Dialog). record d {
      cancelled = true;
      caller_gone = d.caller_gone || is_by_caller why;
    } in
    let taken = λ (d : Dialog). record (give_up d) { in_flight = none } in
    let d = t.store r in
    let keeps : Keeps d (give_up d) = record {
      same_state = refl;
      same_call = refl;
      same_media = λ e. e;
      still_cancelled = λ e. refl;
    } in
    let keeps2 : Keeps d (taken d) = record {
      same_state = refl;
      same_call = refl;
      same_media = λ e. e;
      still_cancelled = λ e. refl;
    } in
    option_first (Calm t) d.in_flight
      (if is_orphan why then (t, none) else (update r give_up t, none))
      (λ a. (
        record (update r taken t) {
          attempts = set_cell a (record (t.attempts a) { cancelled = true }) t.attempts;
        },
        some (a, (t.attempts a).sent),
      ))
      (if_first (Calm t) (is_orphan why) (t, none) (update r give_up t, none) (Calm-refl t)
        (update-Calm r give_up t keeps))
      (λ a. record {
        same_next = refl;
        same_sessions = refl;
        same_gauge = refl;
        same_groups = refl;
        same_closed = refl;
        same_pending = refl;
        each_keeps = set_cell-Keeps t r (taken d) keeps2;
      })

sum_upto-Calm :
    (w : Dialog → ℕ) (s u : ℕ → Dialog) (n : ℕ)
    → ((r : ℕ) → w (u r) ≡ w (s r))
    → sum_upto w u n ≡ sum_upto w s n
unfolding sum_upto
sum_upto-Calm w s u zero each = refl
sum_upto-Calm w s u (suc n) each = rw (each n, sum_upto-Calm w s u n each) refl

pub Calm-Counts : (t u : DialogTable) → Calm t u → Counts t → Counts u
unfolding Counts
Calm-Counts t u calm (slots, gauge, media) =
    let state = λ (r : ℕ). (calm.each_keeps r).same_state in
    (
      calm.same_sessions
          ∙ slots
          ∙ sym (
              sum_upto-Calm alive t.store u.store t.next
                (λ r. ap {B = ℕ} (λ s. if is_ended s then 0 else 1) (state r)))
          ∙ ap (sum_upto alive u.store) (sym calm.same_next),
      calm.same_gauge
          ∙ gauge
          ∙ ap (λ n. n + unreported t.pending)
              (sym (
                  sum_upto-Calm up t.store u.store t.next
                    (λ r. ap {B = ℕ} (λ s. if is_confirmed s then 1 else 0) (state r)))
                ∙ ap (sum_upto up u.store) (sym calm.same_next))
          ∙ ap (λ l. sum_upto up u.store u.next + unreported l) (sym calm.same_pending),
      λ r is_up. (calm.each_keeps r).same_media (media r (sym (ap is_confirmed (state r)) ∙ is_up)),
    )
