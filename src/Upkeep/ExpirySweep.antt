-- ===== src/Upkeep/ExpirySweep.antt =====
-- back-end/src/jobs/expiry-sweep.ts, over the tables of Boards/Service. `expired` is what its query
-- answers: up to a hundred rows that are past their end.
use skrivle.Prelude.{
  ℕ, ◌≡◌, refl, ap, ◌∙◌, Bool, true, false, Bool-cases, inl, inr, not, is_some, List, [], ◌∷◌, map,
  Text, text_eq, ◌==◌, ==_iff, length, filter, has, if◌then◌else◌, arith,
}
use skrivle.Services.{Yjs, Redis}
use skrivle.Boards.Service.{BoardRow, BoardTable}
use skrivle.Realtime.UpdateLog.{Outcome, drop_logs}
use skrivle.Realtime.DocManager.{Registry, peek_doc, is_empty}

abbrev pub batch_size : ℕ
batch_size = 100

-- What a pass leaves; `assets` are the ids of the boards whose thumbnails are deleted first.
pub record Swept (Rows Db : Type 0) : Type 0 where
  pub deleted : ℕ
  pub skipped : ℕ
  pub assets : List Text
  pub rows : Rows
  pub db : Db

abbrev pub sweep_ids : List BoardRow → List Text
sweep_ids boards = map (λ b. b.id) boards

module _ ⦃y : Yjs⦄ ⦃r : Redis (y.Update)⦄ ⦃t : BoardTable⦄ where
  open t use {Rows, find_board, delete_row, find-delete}

  unfoldable pub is_open : Registry (y.Doc) → BoardRow → Bool
  unfolding peek_doc
  is_open docs board = is_some (peek_doc board.id docs)

  -- prisma.board.deleteMany
  unfoldable pub delete_many : List Text → Rows → Rows
  delete_many [] rows = rows
  delete_many (id ∷ ids) rows = delete_many ids (delete_row id rows)

  -- sweepExpiredBoards, with every command answered.
  unfoldable pub sweep_expired_boards :
      Outcome → List BoardRow → Registry (y.Doc) → Rows → r.Db → Swept Rows (r.Db)
  unfolding is_open delete_many
  sweep_expired_boards o expired docs rows db =
      let collectable = filter (λ b. not (is_open docs b)) expired in
      let ids = sweep_ids collectable in
      let skipped = length (filter (is_open docs) expired) in
      if is_empty collectable
      then record { deleted = 0; skipped = skipped; assets = []; rows = rows; db = db }
      else record {
        deleted = length (filter (λ id. is_some (find_board id rows)) ids);
        skipped = skipped;
        assets = sweep_ids (filter (λ b. is_some b.thumbnail_id) collectable);
        rows = delete_many ids rows;
        db = drop_logs o ids db;
      }

  find-delete_many :
      (id : Text) (ids : List Text) (rows : Rows)
      → has id ids ≡ false
      → find_board id (delete_many ids rows) ≡ find_board id rows
  unfolding delete_many has
  find-delete_many id [] rows h = refl
  find-delete_many id (j ∷ ids) rows h =
      ground (arith, find-delete_many id ids (delete_row j rows), find-delete j id rows)

  open-spared :
      (id : Text) (docs : Registry (y.Doc)) (expired : List BoardRow)
      → is_some (peek_doc id docs) ≡ true
      → has id (sweep_ids (filter (λ b. not (is_open docs b)) expired)) ≡ false
  unfolding has is_open
  open-spared id docs [] open_now = refl
  open-spared id docs (b ∷ expired) open_now = elim (Bool-cases (b.id == id)) [
    | inl e ↦
        let here : is_some (peek_doc b.id docs) ≡ true =
          ap (λ i. is_some (peek_doc i docs)) ((==_iff b.id id).0 e) ∙ open_now in
        ground (arith, open-spared id docs expired open_now, here)
    | inr n ↦ ground (arith, open-spared id docs expired open_now)
  ]

  -- A board that someone has open is not deleted, however long it is past its end.
  pub sweep-spares_open :
      (o : Outcome) (id : Text) (expired : List BoardRow) (docs : Registry (y.Doc)) (rows : Rows)
      (db : r.Db)
      → is_some (peek_doc id docs) ≡ true
      → find_board id (sweep_expired_boards o expired docs rows db).rows ≡ find_board id rows
  unfolding sweep_expired_boards
  sweep-spares_open o id expired docs rows db open_now =
      let collectable = filter (λ b. not (is_open docs b)) expired in
      let kept =
        find-delete_many id (sweep_ids collectable) rows (open-spared id docs expired open_now) in
      elim (Bool-cases (is_empty collectable)) [
        | inl e ↦ rw (sweep_expired_boards, e) refl
        | inr e ↦ rw (sweep_expired_boards, e) kept
      ]
