-- ===== src/Edge/Dialogs.antt =====
-- The calls of the proxy: `dialogTable` of internal/edge/dialog.go. The records stand in a store, by
-- the number in which they were begun, and the table lists them by Call-ID; each function below runs
-- under the table's mutex; what `endBy` does after it has released the mutex is a function of its own. A URI, a media session and an attempt stand for themselves as a text or
-- as a number. The media a fork answered with is not in the model.
pub mod Search
pub mod Calls
pub mod Slots
pub mod Ends
pub mod Calm
pub mod Reach
pub mod Over
pub mod Race
pub mod Listed
pub mod Lookups
pub mod Shutdown
use freesbc.Base.{
  ℕ, zero, suc, ◌+◌, ◌-◌, ◌*◌, ◌/◌, ◌%◌, ◌^◌, ◌≤◌, ◌<◌, min, max, String, ◌≡◌, refl, sym, ap, ◌∙◌,
  ◌≢◌, ◌↔◌, ◌⊎◌, inl, inr, ite, if_pos, if_neg, Bool, true, false, not, ◌&&◌, ◌||◌, Option, none,
  some, List, [], ◌∷◌, ◌++◌, map, arith, ℕ_discrete, text_discrete, ltb, leb, ◌==◌, if◌then◌else◌,
  ltb→lt, lt→ltb, ltb_false→le, leb→le, leb_false→lt, le→leb, Bool-cases, Option-cases, false-true,
  length, drop_back, take, drop, keep, All, length-append, length-drop_back, length-drop_back-le,
  length-keep-le, length-take-le,
}
use freesbc.Base.Assoc.{
  find, remove, put, NoDup, find-remove, find-put, find-remove_self, find-remove_ne, find-put_self,
  find-put_ne, length-remove-le, length-remove_known, length-put_known, length-put_new,
  NoDup-remove, NoDup-put, passing, find-keep-none, find-keep, NoDup-keep, find-drop_back,
  find-drop_back-none, NoDup-drop_back, NoDup-touch, find-front_self, find-front_ne,
}
use freesbc.Base.Lru.{
  evict, length-evict, IsLru, IsLru-touch, IsLru-push, find-push_ne, find-touch_ne,
}

-- `dialogEarly`, `dialogConfirmed` and `dialogEnded`.
pub data DialogState : Type 0 where
  dialog_early : DialogState
  dialog_confirmed : DialogState
  dialog_ended : DialogState

abbrev pub is_early : DialogState → Bool
is_early dialog_early = true
is_early dialog_confirmed = false
is_early dialog_ended = false

abbrev pub is_confirmed : DialogState → Bool
is_confirmed dialog_early = false
is_confirmed dialog_confirmed = true
is_confirmed dialog_ended = false

abbrev pub is_ended : DialogState → Bool
is_ended dialog_early = false
is_ended dialog_confirmed = false
is_ended dialog_ended = true

-- `endReason`.
pub data EndReason : Type 0 where
  end_bye_caller : EndReason
  end_bye_callee : EndReason
  end_bye_unanswered : EndReason
  end_rtp_silence : EndReason
  end_dtls_failure : EndReason
  end_reinvite_refused : EndReason
  end_answer_timeout : EndReason
  end_answer_unusable : EndReason
  end_media_fault : EndReason
  end_shutdown : EndReason
  end_ack_timeout : EndReason

pub data Plane : Type 0 where
  plane_public : Plane
  plane_private : Plane

-- `dialogRoute`.
pub record DialogRoute : Type 0 where
  pub public_remote : String
  pub private_remote : String
  pub transport : String
  pub public_contact : String
  pub private_contact : String

abbrev pub no_route : DialogRoute
no_route = record {
  public_remote = "";
  private_remote = "";
  transport = "";
  public_contact = "";
  private_contact = "";
}

-- `earlyFork`, as far as the routing of early requests goes.
pub record EarlyFork : Type 0 where
  pub route : DialogRoute
  pub routed : Bool
  pub to : String
  pub to_set : Bool

abbrev pub new_fork : EarlyFork
new_fork = record { route = no_route; routed = false; to = ""; to_set = false }

-- `inviteAttempt`: whether its INVITE is on the wire, and whether a CANCEL took it.
pub record InviteAttempt : Type 0 where
  pub sent : Bool
  pub cancelled : Bool

-- `dialog`.
pub record Dialog : Type 0 where
  pub call_id : String
  pub caller_tag : String
  pub callee_tag : String
  pub caller_plane : Plane
  pub state : DialogState
  pub in_flight : Option ℕ
  pub route : DialogRoute
  pub carrier : String
  pub cancelled : Bool
  pub caller_gone : Bool
  pub caller_uri : String
  pub callee_uri : String
  pub caller_cseq : ℕ
  pub callee_cseq : ℕ
  pub confirmed_at : ℕ
  pub media : Option ℕ
  pub forks : List (String × EarlyFork)
  pub hooked : Bool
  pub update_offers : ℕ
  pub reinvite_offers : ℕ
  pub owed : Bool
  pub ack : Bool
  pub last_ack : Bool
  pub relaxed_notify : Bool

-- An `endBy` that has released the mutex and has still to close the media session and to lower the
-- gauge: the record, its session, whether it was up, and the reason.
pub record Ending : Type 0 where
  pub call : ℕ
  pub session : Option ℕ
  pub was_up : Bool
  pub reason : EndReason

-- `dialogTable`, with the store of the records and of the attempts, the gauge of the calls that
-- are up (`DialogStarted`, `DialogEnded`), the media sessions that were closed, the reasons
-- that `CallEnded` was given, the newest first, and the ends that are under way.
pub record DialogTable : Type 0 where
  pub store : ℕ → Dialog
  pub next : ℕ
  pub attempts : ℕ → InviteAttempt
  pub by_call_id : List (String × List ℕ)
  pub closed : Bool
  pub sessions : ℕ
  pub gauge : ℕ
  pub media_closed : List ℕ
  pub ended_for : List (ℕ × EndReason)
  pub pending : List Ending

-- The cell `i` of a store is set.
abbrev pub set_cell : {A : Type 0} → ℕ → A → (ℕ → A) → ℕ → A
set_cell i a f j = if j == i then a else f j

abbrev pub blank_dialog : Dialog
blank_dialog = record {
  call_id = "";
  caller_tag = "";
  callee_tag = "";
  caller_plane = plane_public;
  state = dialog_early;
  in_flight = none;
  route = no_route;
  carrier = "";
  cancelled = false;
  caller_gone = false;
  caller_uri = "";
  callee_uri = "";
  caller_cseq = 0;
  callee_cseq = 0;
  confirmed_at = 0;
  media = none;
  forks = [];
  hooked = true;
  update_offers = 0;
  reinvite_offers = 0;
  owed = false;
  ack = false;
  last_ack = false;
  relaxed_notify = false;
}

-- `newDialogTable`.
abbrev pub new_dialog_table : DialogTable
new_dialog_table = record {
  store = λ r. blank_dialog;
  next = 0;
  attempts = λ a. record { sent = false; cancelled = false };
  by_call_id = [];
  closed = false;
  sessions = 0;
  gauge = 0;
  media_closed = [];
  ended_for = [];
  pending = [];
}

-- What the code reads of an INVITE.
pub record Invite : Type 0 where
  pub call_id : String
  pub from_tag : String
  pub from_uri : String
  pub to_uri : String
  pub cseq : ℕ

-- `beginResult`, with the record where there is one.
pub data BeginResult : Type 0 where
  begin_ok : ℕ → BeginResult
  begin_merged : BeginResult
  begin_closed : BeginResult
  begin_full : BeginResult

abbrev pub same : String → String → Bool
same s t = ite (text_discrete s t) true false

abbrev pub or_empty : Option (List ℕ) → List ℕ
or_empty none = []
or_empty (some l) = l

-- `byCallID[callID]`.
abbrev pub group : String → DialogTable → List ℕ
group call_id t = or_empty (find text_discrete call_id t.by_call_id)

-- The first record of a list that a test accepts.
abbrev pub first_of : (ℕ → Bool) → List ℕ → Option ℕ
first_of p [] = none
first_of p (r ∷ rs) = let rest = first_of p rs in if p r then some r else rest

-- An early record of this caller tag.
abbrev pub is_early_of : String → Dialog → Bool
is_early_of tag d = is_early d.state && same d.caller_tag tag

abbrev pub opened : Invite → Plane → Dialog
opened req plane = record blank_dialog {
  call_id = req.call_id;
  caller_tag = req.from_tag;
  caller_plane = plane;
  caller_uri = req.from_uri;
  callee_uri = req.to_uri;
  caller_cseq = req.cseq;
}

-- `begin`; a limit of 0 is no limit, as is a negative one in the code.
unfoldable pub begin : Invite → Plane → ℕ → DialogTable → DialogTable × BeginResult
begin req plane limit t =
    let others = group req.call_id t in
    let d = opened req plane in
    if t.closed
    then (t, begin_closed)
    else elim (first_of (λ o. is_early_of req.from_tag (t.store o)) others) [
      | some o ↦ (t, begin_merged)
      | none ↦ if ltb 0 limit && leb limit t.sessions then (t, begin_full) else (
        record t {
          store = set_cell t.next d t.store;
          next = suc t.next;
          by_call_id = put text_discrete req.call_id (others ++ (t.next ∷ [])) t.by_call_id;
          sessions = t.sessions + 1;
        },
        begin_ok t.next,
      )
    ]

-- `close`.
abbrev pub close : DialogTable → DialogTable
close t = record t { closed = true }

-- The list without the first place at which `r` stands.
abbrev pub erase_first : ℕ → List ℕ → List ℕ
erase_first r [] = []
erase_first r (x ∷ xs) = let rest = erase_first r xs in if x == r then xs else x ∷ rest

-- A group is stored, or deleted where it is empty.
abbrev pub put_group : String → List ℕ → List (String × List ℕ) → List (String × List ℕ)
put_group k [] m = remove text_discrete k m
put_group k (x ∷ xs) m = put text_discrete k (x ∷ xs) m

-- `removeLocked`.
unfoldable pub remove_locked : ℕ → DialogTable → DialogTable
remove_locked r t =
    let call_id = (t.store r).call_id in
    record t { by_call_id = put_group call_id (erase_first r (group call_id t)) t.by_call_id }
