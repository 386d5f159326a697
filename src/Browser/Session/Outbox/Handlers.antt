-- ===== src/Browser/Session/Outbox/Handlers.antt =====
-- The handlers of front-end/src/lib/realtime/board-session.ts that send this browser's work or flag
-- its copy.
use skrivle.Prelude.{
  ◌≡◌, refl, sym, ap, ◌∙◌, ◌⊎◌, inl, inr, Bool, true, false, not, Bool-cases, Option-cases, Option,
  none, some, List, [], ◌∷◌, ◌++◌, Text, text_eq, ==_iff, find, find-put, is_some, Among,
  if◌then◌else◌, arith,
}
use mathlib.Core.Path.{subst}
use skrivle.Services.{Yjs}
use skrivle.Numbers.{Doubles}
use skrivle.Browser.Copies.{CopyIndex, set_unsynced}
use skrivle.Browser.Session.State.{Origin, remote, local, other, Options}
use skrivle.Browser.Session.Local.{Session, Answer, Sent, sync_update, flag_copy, on_doc_update}
use skrivle.Browser.Session.Socket.{on_server_step}
use skrivle.Browser.Session.Steps.{asks, edited, listening, step}
use skrivle.Browser.Session.Outbox.{flagged, HoldsAll, Frame, framed, OnWire, made}
use skrivle.Browser.Session.Outbox.Unmoved.{Same, HoldsAll-keeps, HoldsAll-Among, OnWire-later}

flagged-set :
    (name : Text) (b : Bool) (index : CopyIndex)
    → is_some (find name index) ≡ true
    → (flagged name (set_unsynced true name b index) ≡ b)
      × (is_some (find name (set_unsynced true name b index)) ≡ true)
unfolding set_unsynced
flagged-set name b index h = elim (Option-cases (find name index)) [
  | inl e ↦ ground arith
  | inr (entry, e) ↦
      rw (set_unsynced, e) ground
        (arith, find-put name name (record entry { unsynced = b }) index, ==_iff name name)
]

module _ ⦃y : Yjs⦄ ⦃n : Doubles⦄ where
  open y use {Doc, Update, Vector, Holds, apply_update, encode_since, apply_keeps}

  -- The copy is indexed, and the document holds all that was made.
  pub record Kept (o : Options) (t : Session) (us : List Update) : Type 0 where
    pub copy_indexed : t.copy ≡ some true
    pub entry : is_some (find o.copy_name t.index) ≡ true
    pub holds : HoldsAll t.doc us

  pub Kept-Same :
      (o : Options) (s t : Session) (us : List Update) → Same t s → Kept o s us → Kept o t us
  Kept-Same o s t us (copy, index, doc) k = record {
    copy_indexed = copy ∙ k.copy_indexed;
    entry = ap (λ i. is_some (find o.copy_name i)) index ∙ k.entry;
    holds = subst (λ d. HoldsAll d us) (sym doc) k.holds;
  }

  -- A handler that sets the flag of an indexed copy.
  flag_copy-sets :
      (o : Options) (b : Bool) (t : Session) (us : List Update)
      → o.storage ≡ true
      → t.destroyed ≡ false
      → Kept o t us
      → Kept o (flag_copy o b t) us × (flagged o.copy_name (flag_copy o b t).index ≡ b)
  unfolding flag_copy
  flag_copy-sets o b t us storage live k =
      let (set, there) = flagged-set o.copy_name b t.index k.entry in
      rw (flag_copy, k.copy_indexed, live, storage)
        (record { copy_indexed = k.copy_indexed; entry = there; holds = k.holds }, set)

  -- The claim about one session: it is well kept, and what was made is flagged or sent.
  pub record Told (o : Options) (t : Session) (us : List Update) (fs : List Frame) : Type 0 where
    pub kept : Kept o t us
    pub told : (u : Update) → Among u us → (flagged o.copy_name t.index ≡ true) ⊎ OnWire u fs

  pub Told-Same :
      (o : Options) (s t : Session) (us : List Update) (fs gs : List Frame)
      → Same t s
      → Told o s us fs
      → Told o t us (gs ++ fs)
  Told-Same o s t us fs gs (copy, index, doc) k = record {
    kept = Kept-Same o s t us (copy, index, doc) k.kept;
    told = λ u a. elim (k.told u a) [
      | inl f ↦ inl (ap (flagged o.copy_name) index ∙ f)
      | inr w ↦ inr (OnWire-later u gs fs w)
    ];
  }

  -- The same claim about what a handler leaves and sends.
  abbrev pub ToldOf : Options → List Update → Option Vector → List Frame → Answer → Type 0
  ToldOf o us v fs r = Told o r.0 us (framed v r.1 ++ fs)

  listening-gone :
      (h : Session → Answer) (s : Session) → s.destroyed ≡ true → listening h s ≡ (s, [])
  unfolding listening
  listening-gone h s e = ap (λ b. if b then (s, []) else h s) e

  listening-live : (h : Session → Answer) (s : Session) → s.destroyed ≡ false → listening h s ≡ h s
  unfolding listening
  listening-live h s e = ap (λ b. if b then (s, []) else h s) e

  made-gone :
      (t : Session) (origin : Origin) (u : Update) → t.destroyed ≡ true → made t origin u ≡ []
  made-gone t remote u gone = refl
  made-gone t local u gone = ground arith
  made-gone t other u gone = ground arith

  made-live :
      (t : Session) (u : Update)
      → t.destroyed ≡ false
      → (if t.destroyed then [] else u ∷ []) ≡ (u ∷ [])
  made-live t u live = ground arith

  Told-flag :
      (o : Options) (b : Bool) (t : Session) (us : List Update) (v : Option Vector)
      (fs : List Frame) (gs : List Sent)
      → o.storage ≡ true
      → t.destroyed ≡ false
      → Kept o t us
      → ((u : Update) → Among u us → (b ≡ true) ⊎ OnWire u (framed v gs ++ fs))
      → ToldOf o us v fs (flag_copy o b t, gs)
  Told-flag o b t us v fs gs storage live k told =
      let (kept, set) = flag_copy-sets o b t us storage live k in
      record {
        kept = kept;
        told = λ u a. elim (told u a) [ inl e ↦ inl (set ∙ e) | inr w ↦ inr w ];
      }

  Told-gone :
      (o : Options) (origin : Origin) (u : Update) (t : Session) (us : List Update)
      (fs : List Frame)
      → t.destroyed ≡ true
      → Told o t us fs
      → ToldOf o (made t origin u ++ us) none fs (listening (on_doc_update o origin u) t)
  Told-gone o origin u t us fs gone k =
      subst (λ vs. ToldOf o (vs ++ us) none fs (listening (on_doc_update o origin u) t))
        (sym (made-gone t origin u gone))
        (subst (ToldOf o us none fs) (sym (listening-gone (on_doc_update o origin u) t gone)) k)

  -- A change of this browser's, in a session that is there: it is flagged, or sent.
  Told-new :
      (u : Update) (us : List Update) (fs : List Frame) (flag : Bool)
      → ((w : Update) → Among w us → (flag ≡ true) ⊎ OnWire w fs)
      → (w : Update) → Among w (u ∷ us)
      → (flag ≡ true) ⊎ OnWire w ((none, sync_update u) ∷ fs)
  Told-new u us fs flag told w (inl e) = inr (inl (inl e))
  Told-new u us fs flag told w (inr a) = elim (told w a) [
    | inl f ↦ inl f
    | inr sent ↦ inr (inr sent)
  ]

  Told-own :
      (o : Options) (u : Update) (t : Session) (us : List Update) (fs : List Frame)
      → o.storage ≡ true
      → t.destroyed ≡ false
      → Holds t.doc u
      → Told o t us fs
      → ToldOf o
          (u ∷ us)
          none
          fs
          (if not t.online then (flag_copy o true t, []) else (t, sync_update u ∷ []))
  Told-own o u t us fs storage live holds k =
      let kept : Kept o t (u ∷ us) = record {
        copy_indexed = k.kept.copy_indexed;
        entry = k.kept.entry;
        holds = (holds, k.kept.holds);
      } in
      let outcome : Bool → Answer =
        (λ b. if not b then (flag_copy o true t, []) else (t, sync_update u ∷ [])) in
      elim (Bool-cases t.online) [
        | inl up ↦
            subst (λ b. ToldOf o (u ∷ us) none fs (outcome b)) (sym up)
              (record { kept = kept; told = Told-new u us fs (flagged o.copy_name t.index) k.told })
        | inr down ↦
            subst (λ b. ToldOf o (u ∷ us) none fs (outcome b)) (sym down)
              (Told-flag o true t (u ∷ us) none fs [] storage live kept (λ w a. inl refl))
      ]

  Told-live :
      (o : Options) (origin : Origin) (u : Update) (t : Session) (us : List Update)
      (fs : List Frame)
      → o.storage ≡ true
      → t.destroyed ≡ false
      → Holds t.doc u
      → Told o t us fs
      → ToldOf o (made t origin u ++ us) none fs (listening (on_doc_update o origin u) t)
  unfolding on_doc_update
  Told-live o remote u t us fs storage live holds k =
      subst (ToldOf o us none fs) (sym (listening-live (on_doc_update o remote u) t live)) k
  Told-live o local u t us fs storage live holds k =
      subst (λ vs. ToldOf o (vs ++ us) none fs (listening (on_doc_update o local u) t))
        (sym (made-live t u live))
        (subst (ToldOf o (u ∷ us) none fs) (sym (listening-live (on_doc_update o local u) t live))
          (Told-own o u t us fs storage live holds k))
  Told-live o other u t us fs storage live holds k =
      subst (λ vs. ToldOf o (vs ++ us) none fs (listening (on_doc_update o other u) t))
        (sym (made-live t u live))
        (subst (ToldOf o (u ∷ us) none fs) (sym (listening-live (on_doc_update o other u) t live))
          (Told-own o u t us fs storage live holds k))

  Told-origin :
      (o : Options) (origin : Origin) (u : Update) (t : Session) (us : List Update)
      (fs : List Frame)
      → o.storage ≡ true
      → Holds t.doc u
      → Told o t us fs
      → ToldOf o (made t origin u ++ us) none fs (listening (on_doc_update o origin u) t)
  unfolding listening on_doc_update
  Told-origin o origin u t us fs storage holds k = elim (Bool-cases t.destroyed) [
    | inl gone ↦ Told-gone o origin u t us fs gone k
    | inr live ↦ Told-live o origin u t us fs storage live holds k
  ]

  pub Told-edit :
      (o : Options) (origin : Origin) (d : Doc) (u : Update) (t : Session) (us : List Update)
      (fs : List Frame)
      → o.storage ≡ true
      → ((w : Update) → Holds t.doc w → Holds d w)
      → Holds d u
      → Told o t us fs
      → ToldOf o (made t origin u ++ us) none fs (step o (edited origin d u) t)
  unfolding step on_doc_update
  Told-edit o origin d u t us fs storage keeps holds k =
      let t' : Session = record t { doc = d } in
      let moved : Told o t' us fs = record {
        kept = record {
          copy_indexed = k.kept.copy_indexed;
          entry = k.kept.entry;
          holds = HoldsAll-keeps t.doc d us keeps k.kept.holds;
        };
        told = k.told;
      } in
      Told-origin o origin u t' us fs storage holds moved

  pub Told-asks :
      (o : Options) (v : Option Vector) (t : Session) (us : List Update) (fs : List Frame)
      → o.storage ≡ true
      → Told o t us fs
      → ToldOf o us v fs (step o (asks v) t)
  unfolding step on_server_step
  Told-asks o none t us fs storage k = elim (Bool-cases t.destroyed) [
    | inl gone ↦ subst (ToldOf o us none fs) (sym (listening-gone (on_server_step o none) t gone)) k
    | inr live ↦ subst (ToldOf o us none fs) (sym (listening-live (on_server_step o none) t live)) k
  ]
  Told-asks o (some v) t us fs storage k = elim (Bool-cases t.destroyed) [
    | inl gone ↦
        subst (ToldOf o us (some v) fs) (sym (listening-gone (on_server_step o (some v)) t gone)) k
    | inr live ↦
        subst (ToldOf o us (some v) fs) (sym (listening-live (on_server_step o (some v)) t live)) (
          Told-flag o false t us (some v) fs (sync_update (encode_since t.doc v) ∷ []) storage live
            k.kept
            (λ u a.
              inr (inl (inr (t.doc, v, refl, refl, HoldsAll-Among t.doc us u k.kept.holds a)))))
  ]
