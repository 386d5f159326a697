-- ===== src/Browser/Session/Outbox.antt =====
-- Work that a board session has not delivered, and the flag of its local copy:
-- front-end/src/lib/realtime/board-session.ts with local-copy.ts beside it.
pub mod Unmoved
pub mod Handlers
pub mod Flagged
use skrivle.Prelude.{
  ℕ, ◌≡◌, refl, sym, ap, ◌∙◌, ◌⊎◌, inl, inr, Bool, true, false, not, ◌&&◌, ◌||◌, Bool-cases,
  Option-cases, Option, none, some, List, [], ◌∷◌, ◌++◌, Text, text_eq, ◌==◌, ==_iff, find, put,
  find-put, is_some, Among, Among-append_cases, if◌then◌else◌, arith,
}
use mathlib.Core.Path.{subst}
use skrivle.Services.{Yjs}
use skrivle.Numbers.{Doubles}
use skrivle.Browser.Copies.{CopyEntry, CopyIndex, set_unsynced}
use skrivle.Browser.Cursor.{set_cursor, publish, flush}
use skrivle.Browser.Session.State.{Origin, remote, local, other, Options}
use skrivle.Browser.Session.Local.{
  Session, Answer, Sent, sync_update, sync_step, awareness_update, connect, show, flag_copy,
  on_doc_update, set_local_state, set_local_field, field_of, move_cursor, flush_cursor,
  set_selection, set_role,
}
use skrivle.Browser.Session.Socket.{
  mark_hydrated, on_connect, on_joined, on_server_step, on_server_update, on_error,
  on_connect_error, on_dropped, rejoin_fires, on_loaded,
}
use skrivle.Browser.Session.Steps.{
  Event, opens, joins, asks, updates, errs, fails, drops, edited, hydrate_times_out,
  rejoin_times_out, flush_times_out, indexed, loaded, moves, selects, takes_role, leaves, destroy,
  listening, step,
}

-- The index says that the copy holds work the server may lack.
abbrev pub flagged : Text → CopyIndex → Bool
flagged name index = elim (find name index) [ none ↦ false | some entry ↦ entry.unsynced ]

module _ ⦃y : Yjs⦄ ⦃n : Doubles⦄ where
  open y use {Doc, Update, Vector, Holds, apply_update, encode_since, apply_keeps}

  abbrev pub HoldsAll : Doc → List Update → Type 0
  HoldsAll d [] = Unit
  HoldsAll d (u ∷ us) = Holds d u × HoldsAll d us

  -- What was sent, with the server's vector that it answers.
  abbrev pub Frame : Type 0
  Frame = Option Vector × Sent

  abbrev pub framed : Option Vector → List Sent → List Frame
  framed v [] = []
  framed v (f ∷ fs) = (v, f) ∷ framed v fs

  abbrev pub answering : Event → Option Vector
  answering (asks v) = v
  answering _ = none

  -- The frame is that update, or what a document that held it had beyond the vector which the server
  -- had just sent.
  abbrev pub Delivers : Option Vector → Sent → Update → Type 0
  Delivers v (sync_update b) u =
      (b ≡ u) ⊎ ((d : Doc) × (w : Vector) × (v ≡ some w) × (b ≡ encode_since d w) × Holds d u)
  Delivers v (sync_step w) u = ⊥
  Delivers v (awareness_update state) u = ⊥
  Delivers v connect u = ⊥

  abbrev pub OnWire : Update → List Frame → Type 0
  OnWire u [] = ⊥
  OnWire u (f ∷ fs) = Delivers f.0 f.1 u ⊎ OnWire u fs

  -- The updates of this browser that the session is told of.
  abbrev pub made : Session → Origin → Update → List Update
  made s remote u = []
  made s local u = if s.destroyed then [] else u ∷ []
  made s other u = if s.destroyed then [] else u ∷ []

  -- Neither a transaction nor the indexing of the copy.
  abbrev pub outside : Event → Bool
  outside (edited origin d u) = false
  outside (indexed index) = false
  outside _ = true

  -- What a session has come to, what this browser has made since, and all that it has sent. A
  -- transaction leaves a document that holds what it held and what Yjs reports of it; what other tabs
  -- write to the index they share leaves the entry of this board.
  pub data Course (o : Options) (s : Session) : Session → List Update → List Frame → Type 0 where
    begun : Course o s s [] []
    edits :
        {t : Session} {us : List Update} {fs : List Frame}
        → Course o s t us fs
        → (origin : Origin) (d : Doc) (u : Update) → ((w : Update) → Holds t.doc w → Holds d w)
        → Holds d u
        → Course o s
            (step o (edited origin d u) t).0
            (made t origin u ++ us)
            (framed none (step o (edited origin d u) t).1 ++ fs)
    happens :
        {t : Session} {us : List Update} {fs : List Frame}
        → Course o s t us fs
        → (e : Event) → outside e ≡ true
        → Course o s (step o e t).0 us (framed (answering e) (step o e t).1 ++ fs)
    elsewhere :
        {t : Session} {us : List Update} {fs : List Frame}
        → Course o s t us fs
        → (index : CopyIndex) → find o.copy_name index ≡ find o.copy_name t.index
        → Course o s (record t { index = index }) us fs
