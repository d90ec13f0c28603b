-- ===== src/Repository/Transaction.antt =====
-- internal/repository/transaction.go. What it uses of gorm and of the context package is a record: a
-- handle is a `*gorm.DB`, and a context is what a request brought, with the transactions that
-- `ExecTx` put on it, the last one outermost.
use dst_go_backend.Base.{Option, none, some, List, [], ◌∷◌, ◌≡◌, refl, ap}
use dst_go_backend.Act.{Act, pure, ◌>>◌}

data Context (H R : Type 0) : Type 0 where
  request : R → Context H R
  with_value : Context H R → H → Context H R

record Gorm : Type 1 where
  pub Handle : Type 0
  pub Request : Type 0
  pub Db : Type 0
  pub with_context : Context Handle Request → Handle → Handle
  pub transaction : Handle → (Handle → Act Db (Unit {0})) → Act Db (Unit {0})

-- One call of a repository: the handle that it was made with, and what it runs on the handle it gets.
record Write (g : Gorm) : Type 0 where
  pub default_db : g.Handle
  pub on_handle : g.Handle → Act g.Db (Unit {0})

module _ (g : Gorm) where
  -- `ctx.Value(txKey{}).(*gorm.DB)`.
  abbrev tx_of : Context g.Handle g.Request → Option g.Handle
  tx_of (request r) = none
  tx_of (with_value ctx tx) = some tx

  abbrev chosen : Option g.Handle → g.Handle → g.Handle
  chosen none db = db
  chosen (some tx) db = tx

  unfoldable get_db_from_ctx : Context g.Handle g.Request → g.Handle → g.Handle
  get_db_from_ctx ctx default_db = chosen (tx_of ctx) (g.with_context ctx default_db)

  unfoldable exec_tx :
      g.Handle
      → Context g.Handle g.Request
      → (Context g.Handle g.Request → Act g.Db (Unit {0}))
      → Act g.Db (Unit {0})
  exec_tx db ctx fn = g.transaction (g.with_context ctx db) (λ tx. fn (with_value ctx tx))

  -- Calls of repositories, one after the other, up to the first error.
  abbrev write_all : Context g.Handle g.Request → List (Write g) → Act g.Db (Unit {0})
  unfolding get_db_from_ctx
  write_all ctx [] = pure tt
  write_all ctx (a ∷ rest) = a.on_handle (get_db_from_ctx ctx a.default_db) >> write_all ctx rest

  abbrev all_on : g.Handle → List (Write g) → Act g.Db (Unit {0})
  all_on tx [] = pure tt
  all_on tx (a ∷ rest) = a.on_handle tx >> all_on tx rest

  -- Under a transaction every call gets its handle, whichever one its repository was made with.
  write_all-all_on :
      (ctx : Context g.Handle g.Request) (tx : g.Handle) (ws : List (Write g))
      → write_all (with_value ctx tx) ws ≡ all_on tx ws
  unfolding get_db_from_ctx
  write_all-all_on ctx tx [] = refl
  write_all-all_on ctx tx (a ∷ rest) = ap (λ m. a.on_handle tx >> m) (write_all-all_on ctx tx rest)

  -- The calls that a function makes under `exec_tx` are one transaction of gorm's, with none of them
  -- outside of it.
  exec_tx-write_all :
      (db : g.Handle) (ctx : Context g.Handle g.Request) (ws : List (Write g))
      → exec_tx db ctx (λ c. write_all c ws)
        ≡ g.transaction (g.with_context ctx db) (λ tx. all_on tx ws)
  unfolding exec_tx
  exec_tx-write_all db ctx ws =
      ap (g.transaction (g.with_context ctx db)) (λ i tx. write_all-all_on ctx tx ws i)
