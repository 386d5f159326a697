-- ===== src/Realtime/Gateway/Leaving.antt =====
-- The end of a board's time in memory, in back-end/src/realtime/gateway.ts.
use skrivle.Prelude.{
  ℕ, ◌<◌, ◌≡◌, some, List, [], ◌∷◌, Text, text_eq, ==_refl, length, find, add, find-put, arith,
}
use skrivle.Services.{Yjs, Redis}
use skrivle.Realtime.DocManager.{DocEntry, Registry, track_socket, modify, socket_count}
use skrivle.Realtime.Gateway.{finish_release}

length-add : (k : Text) (s : List Text) → 0 < length (add k s)
unfolding add
length-add k [] = omega arith
length-add k (j ∷ s) = ground (arith, length-add k s)

module _ ⦃y : Yjs⦄ ⦃r : Redis (y.Update)⦄ where
  open y use {Doc}

  -- Someone who joins while the last one's write is under way keeps the board in memory: the
  -- release that follows the write changes nothing.
  pub joined-keeps :
      (id socket : Text) (entry : DocEntry Doc) (docs : Registry Doc) (counters : List (Text × ℕ))
      → find id docs ≡ some entry
      → finish_release id (track_socket id socket docs) counters
        ≡ (track_socket id socket docs, counters)
  unfolding finish_release track_socket modify socket_count
  joined-keeps id socket entry docs counters e =
      let after : DocEntry Doc = record entry { sockets = add socket entry.sockets } in
      ground (arith, length-add socket entry.sockets, find-put id id after docs, ==_refl id)
