-- ===== src/Realtime/Awareness/Departures.antt =====
-- back-end/src/realtime/awareness.ts: what a departed socket lets go of.
use skrivle.Prelude.{
  ℕ, ◌≡◌, refl, Bool, true, false, ◌&&◌, ◌||◌, Option, none, some, List, [], ◌∷◌, arith, Text,
  text_eq, nat_eq, ◌==◌, ==_iff, find, find-put, find-remove, has, has-append, has-without, without,
  if◌then◌else◌, Option-cases, inl, inr,
}
use skrivle.Services.{AwarenessProtocol}
use skrivle.Realtime.DocManager.{is_empty}
use skrivle.Realtime.Awareness.{
  Owner, Owners, AwarenessSocket, Room, release_one, release_each, release_clients,
}

-- What is left of an owner when a socket goes.
abbrev pub left : Text → Option Owner → Option Owner
left s none = none
left s (some o) =
    if is_empty (without s o.sockets)
    then none
    else some (record o { sockets = without s o.sockets })

release_one-owners :
    (s : Text) (d c : ℕ) (owners : Owners) (gone : List ℕ)
    → find c (release_one s d (owners, gone)).0
      ≡ (if d == c then left s (find c owners) else find c owners)
unfolding release_one
release_one-owners s d c owners gone = elim (Option-cases (find d owners)) [
  | inl e ↦ ground (arith, ==_iff d c)
  | inr (o, e) ↦ ground (
    arith,
    ==_iff d c,
    find-remove d c owners,
    find-put d c (record o { sockets = without s o.sockets }) owners,
  )
]

-- The id had an owner, and the socket was the last that held it.
abbrev pub last_held : Text → Option Owner → Bool
last_held s none = false
last_held s (some o) = is_empty (without s o.sockets)

release_one-gone :
    (s : Text) (d c : ℕ) (owners : Owners) (gone : List ℕ)
    → has c (release_one s d (owners, gone)).1
      ≡ (has c gone || (d == c && last_held s (find c owners)))
unfolding release_one has
release_one-gone s d c owners gone = elim (Option-cases (find d owners)) [
  | inl e ↦ ground (arith, ==_iff d c)
  | inr (o, e) ↦ ground (arith, ==_iff d c, has-append c gone (d ∷ []))
]

without_twice : (s : Text) (l : List Text) → without s (without s l) ≡ without s l
unfolding without
without_twice s [] = refl
without_twice s (x ∷ l) = ground (arith, without_twice s l)

left_twice : (s : Text) (o : Option Owner) → left s (left s o) ≡ left s o
left_twice s none = refl
left_twice s (some o) = ground (arith, without_twice s o.sockets)

release_each-owners :
    (s : Text) (cs : List ℕ) (c : ℕ) (owners : Owners) (gone : List ℕ)
    → find c (release_each s cs (owners, gone)).0
      ≡ (if has c cs then left s (find c owners) else find c owners)
unfolding release_each has
release_each-owners s [] c owners gone = refl
release_each-owners s (d ∷ cs) c owners gone =
    let (owners', gone') = release_one s d (owners, gone) in
    ground (
      arith,
      release_one-owners s d c owners gone,
      release_each-owners s cs c owners' gone',
      left_twice s (find c owners),
    )

last_held_twice : (s : Text) (o : Option Owner) → last_held s (left s o) ≡ false
last_held_twice s none = refl
last_held_twice s (some o) = ground (arith, without_twice s o.sockets)

release_each-gone :
    (s : Text) (cs : List ℕ) (c : ℕ) (owners : Owners) (gone : List ℕ)
    → has c (release_each s cs (owners, gone)).1
      ≡ (has c gone || (has c cs && last_held s (find c owners)))
unfolding release_each has
release_each-gone s [] c owners gone = ground arith
release_each-gone s (d ∷ cs) c owners gone =
    let (owners', gone') = release_one s d (owners, gone) in
    ground (
      arith,
      release_one-owners s d c owners gone,
      release_one-gone s d c owners gone,
      release_each-gone s cs c owners' gone',
      last_held_twice s (find c owners),
    )

has-is_empty : (c : ℕ) (l : List ℕ) → has c l ≡ true → is_empty l ≡ false
unfolding has
has-is_empty c [] h = cc
has-is_empty c (x ∷ l) h = refl

module _ ⦃p : AwarenessProtocol⦄ where
  open p use {States, state}

  state-release :
      (room : Room States) (s : AwarenessSocket) (c : ℕ)
      → state (release_clients room s).0.states c ≡ (
          if has c s.awareness_clients && last_held s.id (find c room.owners)
          then none
          else state room.states c)
  unfolding release_clients has
  state-release room s c =
      let gone = (release_each s.id s.awareness_clients (room.owners, [])).1 in
      ground (
        arith,
        release_each-gone s.id s.awareness_clients c room.owners [],
        has-is_empty c gone,
        p.state-remove room.states c gone,
      )

  -- When a socket departs, an id that it spoke for and that no other socket holds has no owner and
  -- no state left; one that another socket holds keeps its owner, that socket and its state; and an
  -- id that it did not speak for is untouched.
  pub departure :
      (room : Room States) (s : AwarenessSocket) (c : ℕ)
      → (find c (release_clients room s).0.owners ≡ (
          if has c s.awareness_clients then left s.id (find c room.owners) else find c room.owners))
        × (state (release_clients room s).0.states c ≡ (
            if has c s.awareness_clients && last_held s.id (find c room.owners)
            then none
            else state room.states c))
  unfolding release_clients
  departure room s c =
      (release_each-owners s.id s.awareness_clients c room.owners [], state-release room s c)

  has-without-is_empty :
      (s t : Text) (l : List Text)
      → (s == t) ≡ false
      → has t l ≡ true
      → is_empty (without s l) ≡ false
  unfolding has without
  has-without-is_empty s t [] d h = cc
  has-without-is_empty s t (x ∷ l) d h =
      ground (arith, ==_iff x s, ==_iff x t, ==_iff s t, has-without-is_empty s t l d)

  -- A client that has already come back on another socket keeps its cursor when the old socket is
  -- given up: the id still has its key and the new socket, and its state is what it was.
  pub reconnect-keeps :
      (room : Room States) (old : AwarenessSocket) (new : Text) (c : ℕ) (o : Owner)
      → find c room.owners ≡ some o
      → (old.id == new) ≡ false
      → has new o.sockets ≡ true
      → (o' : Owner) × (find c (release_clients room old).0.owners ≡ some o')
        × (o'.key ≡ o.key)
        × (has new o'.sockets ≡ true)
        × (state (release_clients room old).0.states c ≡ state room.states c)
  reconnect-keeps room old new c o found other held = (
    (if has c old.awareness_clients then record o { sockets = without old.id o.sockets } else o),
    ground (arith, departure room old c, has-without-is_empty old.id new o.sockets),
    ground arith,
    ground (arith, has-without old.id new o.sockets),
    ground (arith, departure room old c, has-without-is_empty old.id new o.sockets),
  )
