-- ===== src/Http/Ownership.antt =====
-- The handlers of internal/handler/v1/server, dst and task, and the rows of other users.
use dst_go_backend.Base.{
  ℕ, ◌≡◌, ◌≢◌, refl, ◌∙◌, sym, Bool, true, false, ◌==◌, String, Option, none, some, arith, inl, inr,
  Bool-cases,
}
use dst_go_backend.Strings.Split.{parse_uint}
use dst_go_backend.Repository.Database.{DatabaseLaws}
use dst_go_backend.Http.{Context, Handler, bind, with_user, user_or, with_id, id_or}
use dst_go_backend.Http.Written.{ask}
use dst_go_backend.Http.Servers
use dst_go_backend.Http.Dsts
use dst_go_backend.Http.Tasks
use dst_go_backend.Http.Users.{Config}
use dst_go_backend.Http.Router.{
  Protected, profile, create_server, list_servers, get_server, update_server, delete_server,
  create_dst, list_dsts, get_dst, update_dst, delete_dst, list_tasks, get_task, protected_handler,
}
use dst_go_backend.Service.World.{Env, World}
use dst_go_backend.Service.Auth.{Identity}
use dst_go_backend.Service.Panel.{Request}
use dst_go_backend.Service.Panel.Isolation.{view, serve-view}

module _ (e : Env) (laws : DatabaseLaws e.database) (other : ℕ) (c : Context) where
  -- On this request, the handler leaves the rows of the other user alone.
  abbrev Leaves : Handler e → Type 0
  Leaves run = (w : World e) → view e other (run c w).1 ≡ view e other w

  ask-Leaves : (user_id : ℕ) (req : Request) → user_id ≢ other → Leaves (ask e user_id req)
  ask-Leaves user_id req ne w = serve-view e laws user_id other ne req w

  bind-Leaves :
      {A : Type 0} (o : Option A) (msg : String) (run : A → Handler e)
      → ((a : A) → Leaves (run a))
      → Leaves (bind e o msg run)
  bind-Leaves none msg run k w = refl
  bind-Leaves (some a) msg run k w = k a w

  id_or-Leaves :
      (msg : String) (o : Option ℕ) (run : ℕ → Handler e)
      → ((id : ℕ) → Leaves (run id))
      → Leaves (id_or e msg o run)
  id_or-Leaves msg none run k w = refl
  id_or-Leaves msg (some id) run k w = elim (Bool-cases (id == 0)) [
    | inl zero_id ↦ rw zero_id refl
    | inr other_id ↦ rw other_id (k id w)
  ]

  with_id-Leaves :
      (msg : String) (run : ℕ → Handler e)
      → ((id : ℕ) → Leaves (run id))
      → Leaves (with_id e msg run)
  unfolding with_id
  with_id-Leaves msg run k = id_or-Leaves msg (parse_uint c.id_param) run k

  user_or-Leaves :
      (o : Option Identity) (run : ℕ → Handler e)
      → ((identity : Identity) → o ≡ some identity → Leaves (run identity.user_id))
      → Leaves (user_or e o run)
  user_or-Leaves none run k w = refl
  user_or-Leaves (some identity) run k w = elim (Bool-cases (identity.user_id == 0)) [
    | inl zero_id ↦ rw zero_id refl
    | inr other_id ↦ rw other_id (k identity refl w)
  ]

  with_user-Leaves :
      (run : ℕ → Handler e)
      → ((identity : Identity) → c.identity ≡ some identity → Leaves (run identity.user_id))
      → Leaves (with_user e run)
  unfolding with_user
  with_user-Leaves run k = user_or-Leaves c.identity run k

not_other :
    (e : Env) (c : Context) (other : ℕ) (identity : Identity)
    → c.identity ≡ some identity
    → identity.user_id ≢ other
    → (i : Identity) → c.identity ≡ some i
    → i.user_id ≢ other
not_other e c other identity is ne i a =
    let both : some i ≡ some identity = sym a ∙ is in
    let same : i.user_id ≡ identity.user_id = ground (arith, both) in λ q. ne (sym same ∙ q)

-- The routes of servers, clusters and tasks.
abbrev pub is_panel : Protected → Bool
is_panel profile = false
is_panel _ = true

-- On every route of servers, clusters and tasks, whatever the path, the query or the body says, the
-- handler leaves the rows of every user alone but the one that `Auth` has identified. In a database
-- with the documented laws.
pub protected_handler-view :
    (e : Env)
    → DatabaseLaws e.database
    → (config : Config) (other : ℕ) (p : Protected) (c : Context) (w : World e)
      (identity : Identity)
    → c.identity ≡ some identity
    → identity.user_id ≢ other
    → is_panel p ≡ true
    → view e other (protected_handler e config p c w).1 ≡ view e other w
unfolding protected_handler Servers.create Servers.list Servers.get_by_id Servers.update
    Servers.delete Dsts.create Dsts.list Dsts.get_by_id Dsts.update Dsts.delete Tasks.list
    Tasks.get_by_id
protected_handler-view e laws config other profile c w identity is ne panel =
    absurd (ground (arith, panel))
protected_handler-view e laws config other (create_server bound) c w identity is ne panel =
    with_user-Leaves e laws other c _
      (λ i a. bind-Leaves e laws other c bound _ _ (λ req.
        ask-Leaves e laws other c _ (Request.create_server req)
          (not_other e c other identity is ne i a)))
      w
protected_handler-view e laws config other (list_servers bound) c w identity is ne panel =
    with_user-Leaves e laws other c _
      (λ i a. bind-Leaves e laws other c bound _ _ (λ req.
        ask-Leaves e laws other c _ (Request.list_servers req.page req.page_size)
          (not_other e c other identity is ne i a)))
      w
protected_handler-view e laws config other get_server c w identity is ne panel =
    with_user-Leaves e laws other c _
      (λ i a. with_id-Leaves e laws other c _ _ (λ id.
        ask-Leaves e laws other c _ (Request.get_server id)
          (not_other e c other identity is ne i a)))
      w
protected_handler-view e laws config other (update_server bound) c w identity is ne panel =
    with_user-Leaves e laws other c _
      (λ i a. with_id-Leaves e laws other c _ _ (λ id. bind-Leaves e laws other c bound _ _ (λ req.
        ask-Leaves e laws other c _ (Request.update_server id req)
          (not_other e c other identity is ne i a))))
      w
protected_handler-view e laws config other delete_server c w identity is ne panel =
    with_user-Leaves e laws other c _
      (λ i a. with_id-Leaves e laws other c _ _ (λ id.
        ask-Leaves e laws other c _ (Request.delete_server id)
          (not_other e c other identity is ne i a)))
      w
protected_handler-view e laws config other (create_dst bound) c w identity is ne panel =
    with_user-Leaves e laws other c _
      (λ i a. bind-Leaves e laws other c bound _ _ (λ req.
        ask-Leaves e laws other c _ (Request.create_dst req)
          (not_other e c other identity is ne i a)))
      w
protected_handler-view e laws config other (list_dsts bound) c w identity is ne panel =
    with_user-Leaves e laws other c _
      (λ i a. bind-Leaves e laws other c bound _ _ (λ req.
        ask-Leaves e laws other c _ (Request.list_dsts req.server_id req.page req.page_size)
          (not_other e c other identity is ne i a)))
      w
protected_handler-view e laws config other get_dst c w identity is ne panel =
    with_user-Leaves e laws other c _
      (λ i a. with_id-Leaves e laws other c _ _ (λ id.
        ask-Leaves e laws other c _ (Request.get_dst id) (not_other e c other identity is ne i a)))
      w
protected_handler-view e laws config other (update_dst bound) c w identity is ne panel =
    with_user-Leaves e laws other c _
      (λ i a. with_id-Leaves e laws other c _ _ (λ id. bind-Leaves e laws other c bound _ _ (λ req.
        ask-Leaves e laws other c _ (Request.update_dst id req)
          (not_other e c other identity is ne i a))))
      w
protected_handler-view e laws config other delete_dst c w identity is ne panel =
    with_user-Leaves e laws other c _
      (λ i a. with_id-Leaves e laws other c _ _ (λ id.
        ask-Leaves e laws other c _ (Request.delete_dst id)
          (not_other e c other identity is ne i a)))
      w
protected_handler-view e laws config other (list_tasks bound) c w identity is ne panel =
    with_user-Leaves e laws other c _
      (λ i a. bind-Leaves e laws other c bound _ _ (λ req.
        ask-Leaves e laws other c _ (Request.list_tasks req)
          (not_other e c other identity is ne i a)))
      w
protected_handler-view e laws config other get_task c w identity is ne panel =
    with_user-Leaves e laws other c _
      (λ i a. with_id-Leaves e laws other c _ _ (λ id.
        ask-Leaves e laws other c _ (Request.get_task id) (not_other e c other identity is ne i a)))
      w
