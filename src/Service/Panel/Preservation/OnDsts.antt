-- ===== src/Service/Panel/Preservation/OnDsts.antt =====
-- The operations of internal/service/dst/service.go, and properties of the rows that are `Closed`.
use dst_go_backend.Base.{
  ℕ, ℤ, to_nat, ◌≡◌, refl, ◌||◌, ◌==◌, true, Option, none, some, arith, int_lt, int_gt,
}
use dst_go_backend.Apperr.{Error, biz, duplicated_key, record_not_found}
use dst_go_backend.Act.{pure, ◌>>=◌, ◌>>◌, need, attempt}
use dst_go_backend.Act.Runs.{Runs, Runs-bind, Runs-recode, Runs-attempt}
use dst_go_backend.Strings.{is_empty, trim_space}
use dst_go_backend.Repository.Database.{DatabaseLaws, Server, Dst, any}
use dst_go_backend.Repository.Server.{is_server_of}
use dst_go_backend.Repository.Dst
use dst_go_backend.Service.World.{Env, World, on_db}
use dst_go_backend.Service.Server as Servers
use dst_go_backend.Service.Dst as Dsts
use dst_go_backend.Service.Panel.Closed.{RowsProperty, Closed, IsGoodDst}
use dst_go_backend.Service.Panel.Kept.{Holds}
use dst_go_backend.Service.Panel.Queries.{
  IsBacked, get_server-Runs, get_server-Kept, get_dst-Kept, list_dsts-Kept,
}
use dst_go_backend.Service.Panel.Statements.{create_dst-Runs, update_dst-Kept, delete_dst-Kept}
use dst_go_backend.Service.Panel.Lift.{
  HoldsIn, Keeps, returned, on_db-Runs, on_db-Keeps, on_db-at, bind-Keeps, attempt-Keeps,
  recode-Keeps, guard-Keeps, need-Keeps,
}

module _ (e : Env) (J : RowsProperty) where
  dst_update_failed : (x : Error) → Keeps e J (Dsts.update_failed e x)
  unfolding Keeps
  dst_update_failed record_not_found w h = h
  dst_update_failed _ w h = h

  dst_delete_failed : (x : Error) → Keeps e J (Dsts.delete_failed e x)
  unfolding Keeps
  dst_delete_failed record_not_found w h = h
  dst_delete_failed _ w h = h

module _ (e : Env) (laws : DatabaseLaws e.database) (user_id : ℕ) (J : RowsProperty) where
  -- Behind the guard the user's server is there.
  abbrev Backed : ℕ → World e → Type 0
  Backed server_id w =
      HoldsIn e J w × (any (is_server_of user_id server_id) (e.servers.rows w.db) ≡ true)

  need_server-Runs :
      (server_id : ℕ)
      → Runs
          (HoldsIn e J)
          (Dsts.need_server e user_id server_id)
          (λ u. Backed server_id)
          (HoldsIn e J)
  unfolding Dsts.need_server
  need_server-Runs server_id =
      Runs-bind (HoldsIn e J)
        (λ found w. HoldsIn e J w × IsBacked e.database laws user_id J server_id found w.db)
        (λ (u : Unit {0}). Backed server_id) (HoldsIn e J) _ _
        (Runs-recode (HoldsIn e J)
          (λ found w. HoldsIn e J w × IsBacked e.database laws user_id J server_id found w.db)
          (HoldsIn e J) _ _
          (on_db-Runs e (Holds e.database J)
            (λ found t. Holds e.database J t × IsBacked e.database laws user_id J server_id found t)
            (Holds e.database J) _ (get_server-Runs e.database laws user_id J server_id)))
        found_or
    where
      found_or :
          (found : Option Server)
          → Runs
              (λ w. HoldsIn e J w × IsBacked e.database laws user_id J server_id found w.db)
              (need found (biz 404 "服务器不存在") >>= λ server. pure tt)
              (λ u. Backed server_id)
              (HoldsIn e J)
      found_or none w h = h.0
      found_or (some server) w h = h

  need_server-Keeps : (server_id : ℕ) → Keeps e J (Dsts.need_server e user_id server_id)
  unfolding Dsts.need_server
  need_server-Keeps server_id =
      bind-Keeps e J _ _
        (recode-Keeps e J _ _
          (on_db-Keeps e J _ (get_server-Kept e.database laws user_id J server_id)))
        (λ found. need-Keeps e J found _ _ (λ server. returned e J tt))

  pub get_dst-Keeps : (id : ℕ) → Keeps e J (Dsts.get_by_id e user_id id)
  unfolding Dsts.get_by_id
  get_dst-Keeps id =
      bind-Keeps e J _ _
        (recode-Keeps e J _ _ (on_db-Keeps e J _ (get_dst-Kept e.database laws user_id J id)))
        (λ found. need-Keeps e J found _ _ (λ dst. returned e J _))

  pub list_dsts-Keeps :
      (server_id : ℕ) (page size : ℤ) → Keeps e J (Dsts.list e user_id server_id page size)
  unfolding Dsts.list
  list_dsts-Keeps server_id page size =
      guard-Keeps e J (server_id == 0 || Servers.is_bad_page page size) _ _ (λ fits.
        bind-Keeps e J _ _ (need_server-Keeps server_id) (λ there.
          bind-Keeps e J _ _
            (recode-Keeps e J _ _ (
              on_db-Keeps e J _
                (list_dsts-Kept e.database laws user_id J server_id (to_nat page) (to_nat size))))
            (λ found. returned e J _)))

module _ (e : Env) (laws : DatabaseLaws e.database) (user_id : ℕ) (J : RowsProperty)
    (closed : Closed user_id J) where
  stored-Runs :
      (req : Dsts.CreateDstReq)
      → IsGoodDst (Dsts.new_dst user_id req)
      → Keeps e J (
          Dsts.need_server e user_id req.server_id
          >> attempt
              (on_db e (Dst.create e.database (Dsts.new_dst user_id req)))
              (Dsts.create_failed e)
              (λ dst. pure (Dsts.to_dst_resp dst)))
  unfolding Keeps
  stored-Runs req good =
      let K = HoldsIn e J in
      let B = Backed e laws user_id J req.server_id in
      Runs-bind K (λ (u : Unit {0}). B) (λ (r : Dsts.DstResp). K) K _ _
        (need_server-Runs e laws user_id J req.server_id)
        (λ u.
          Runs-attempt B (λ (stored : Dst). K) (λ (r : Dsts.DstResp). K) K _ _ _
            (on_db-Runs e
              (λ s.
                Holds e.database J s
                × (any (is_server_of user_id req.server_id) (e.servers.rows s) ≡ true))
              (λ (stored : Dst). Holds e.database J) (Holds e.database J) _
              (create_dst-Runs e.database laws user_id J closed (Dsts.new_dst user_id req) refl
                good))
            (create_failed-Runs) (λ stored w h. h))
    where
      create_failed-Runs :
          (x : Error)
          → Runs
              (HoldsIn e J)
              (Dsts.create_failed e x)
              (λ (r : Dsts.DstResp). HoldsIn e J)
              (HoldsIn e J)
      create_failed-Runs duplicated_key w h = h
      create_failed-Runs _ w h = h

  pub create_dst-Keeps : (req : Dsts.CreateDstReq) → Keeps e J (Dsts.create e user_id req)
  unfolding Dsts.create
  create_dst-Keeps req = guard-Keeps e J (is_empty (trim_space req.name)) _ _ (λ named.
      guard-Keeps e J
        (req.server_id == 0 || int_lt req.slot 1 || int_gt req.slot 5 || int_lt req.max_players 1) _
        _ (λ fits. stored-Runs req (ground (arith, fits), ground (arith, fits), named)))

  pub update_dst-Keeps :
      (id : ℕ) (req : Dsts.UpdateDstReq) → Keeps e J (Dsts.update e user_id id req)
  unfolding Dsts.update
  update_dst-Keeps id req = guard-Keeps e J (is_empty (trim_space req.name)) _ _ (λ named.
      guard-Keeps e J (int_lt req.max_players 1) _ _ (λ fits.
        attempt-Keeps e J _ _ _
          (on_db-at e J _ (λ now.
            update_dst-Kept e.database laws user_id J closed now id (Dsts.updates_of req)
              (fits, named)))
          (dst_update_failed e J) (λ done. returned e J done)))

  pub delete_dst-Keeps : (id : ℕ) → Keeps e J (Dsts.delete e user_id id)
  unfolding Dsts.delete
  delete_dst-Keeps id =
      attempt-Keeps e J _ _ _
        (on_db-Keeps e J _ (delete_dst-Kept e.database laws user_id J closed id))
        (dst_delete_failed e J) (λ done. returned e J done)
