-- ===== src/Browser/Session/Outbox/Flagged.antt =====
-- All that happens to a session of front-end/src/lib/realtime/board-session.ts: what it was told is
-- flagged or sent.
use skrivle.Prelude.{
  ◌≡◌, sym, ap, ◌∙◌, ◌⊎◌, inl, inr, true, false, none, some, List, ◌++◌, text_eq, find, is_some,
  Among,
}
use mathlib.Core.Path.{subst}
use skrivle.Services.{Yjs}
use skrivle.Numbers.{Doubles}
use skrivle.Browser.Session.State.{Options}
use skrivle.Browser.Session.Local.{Session}
use skrivle.Browser.Session.Steps.{Event, asks, updates, step}
use skrivle.Browser.Session.Outbox.{
  flagged, HoldsAll, Frame, framed, answering, OnWire, outside, Course, begun, edits, happens,
  elsewhere,
}
use skrivle.Browser.Session.Outbox.Unmoved.{
  step-Same, OnWire-later, updates-shape, received-holds, nothing-Same,
}
use skrivle.Browser.Session.Outbox.Handlers.{Told, Told-Same, ToldOf, Told-edit, Told-asks}

module _ ⦃y : Yjs⦄ ⦃n : Doubles⦄ where
  open y use {Doc, Update, Vector, Holds, apply_update, encode_since, apply_keeps}

  Told-received :
      (o : Options) (u : Update) (t : Session) (us : List Update) (fs gs : List Frame)
      → Told o t us fs
      → Told o (step o (updates (some u)) t).0 us (gs ++ fs)
  Told-received o u t us fs gs k =
      let (copy, index, doc) = updates-shape o u t in
      record {
        kept = record {
          copy_indexed = copy ∙ k.kept.copy_indexed;
          entry = ap (λ i. is_some (find o.copy_name i)) index ∙ k.kept.entry;
          holds = subst (λ d. HoldsAll d us) (sym doc) (received-holds t u us k.kept.holds);
        };
        told = λ w a. elim (k.told w a) [
          | inl f ↦ inl (ap (flagged o.copy_name) index ∙ f)
          | inr sent ↦ inr (OnWire-later w gs fs sent)
        ];
      }

  Told-outside :
      (o : Options) (e : Event) (t : Session) (us : List Update) (fs : List Frame)
      → o.storage ≡ true
      → outside e ≡ true
      → Told o t us fs
      → ToldOf o us (answering e) fs (step o e t)
  Told-outside o (asks v) t us fs storage h k = Told-asks o v t us fs storage k
  Told-outside o (updates none) t us fs storage h k =
      Told-Same o t (step o (updates none) t).0 us fs (framed none (step o (updates none) t).1)
        (nothing-Same o t) k
  Told-outside o (updates (some u)) t us fs storage h k =
      Told-received o u t us fs (framed none (step o (updates (some u)) t).1) k
  Told-outside o e t us fs storage h k =
      Told-Same o t (step o e t).0 us fs (framed (answering e) (step o e t).1) (step-Same o e t h) k

  Course-Told :
      (o : Options) (s t : Session) (us : List Update) (fs : List Frame)
      → o.storage ≡ true
      → s.copy ≡ some true
      → is_some (find o.copy_name s.index) ≡ true
      → Course o s t us fs
      → Told o t us fs
  Course-Told o s t us fs storage copy entry begun = record {
    kept = record { copy_indexed = copy; entry = entry; holds = tt };
    told = λ u a. elim a [ ];
  }
  Course-Told o s t us fs storage copy entry
        (edits {t = r} {us = vs} {fs = gs} path origin d u keeps holds) =
      Told-edit o origin d u r vs gs storage keeps holds
        (Course-Told o s r vs gs storage copy entry path)
  Course-Told o s t us fs storage copy entry
        (happens {t = r} {us = vs} {fs = gs} path e quiet_one) =
      Told-outside o e r us gs storage quiet_one (Course-Told o s r us gs storage copy entry path)
  Course-Told o s t us fs storage copy entry
        (elsewhere {t = r} {us = vs} {fs = gs} path index same) =
      let k = Course-Told o s r vs gs storage copy entry path in
      record {
        kept = record {
          copy_indexed = k.kept.copy_indexed;
          entry = ap is_some same ∙ k.kept.entry;
          holds = k.kept.holds;
        };
        told = λ u a. elim (k.told u a) [
          | inl f ↦ inl (ap (λ e. elim e [ none ↦ false | some entry ↦ entry.unsynced ]) same ∙ f)
          | inr sent ↦ inr sent
        ];
      }

  -- Once the local copy is indexed and localStorage works, whatever happens to the session, while other
  -- tabs leave the copy's entry in the index alone: a change that this browser made has been sent, by
  -- itself or in the answer to the state vector that the server had just sent, from a document that
  -- held it, or else the copy is flagged as unsynced.
  pub Course-flagged_or_sent :
      (o : Options) (s t : Session) (us : List Update) (fs : List Frame) (u : Update)
      → o.storage ≡ true
      → s.copy ≡ some true
      → is_some (find o.copy_name s.index) ≡ true
      → Course o s t us fs
      → Among u us
      → (flagged o.copy_name t.index ≡ true) ⊎ OnWire u fs
  Course-flagged_or_sent o s t us fs u storage copy entry path a =
      (Course-Told o s t us fs storage copy entry path).told u a
