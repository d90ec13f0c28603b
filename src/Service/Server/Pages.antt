-- ===== src/Service/Server/Pages.antt =====
-- `List` of internal/service/server/service.go: the pages of a user's servers, put together.
use dst_go_backend.Base.{
  ℕ, zero, suc, ◌+◌, ◌-◌, ◌*◌, ◌≤◌, ◌≡◌, refl, ◌∙◌, sym, ap, subst, List, [], ◌∷◌, ◌++◌, map, arith,
  length, keep, take, drop, pos,
}
use dst_go_backend.Apperr.{biz, ok}
use dst_go_backend.Act.{
  Act, pure, ◌>>=◌, throw_if, recode, continue-eq-ok, recode-eq-ok, throw_if-eq-ok,
}
use dst_go_backend.Repository.Table.{Pages, Counts}
use dst_go_backend.Repository.Database.{DatabaseLaws, Server}
use dst_go_backend.Repository.Server
use dst_go_backend.Repository.Server.{is_user_server, newest_server}
use dst_go_backend.Service.World.{Env, World, on_db}
use dst_go_backend.Service.Server.{ServerResp, ServerListResp, to_server_resp, is_bad_page, list}

module _ {A : Type 0} where
  take-nil : (n : ℕ) → take {A = A} n [] ≡ []
  take-nil zero = refl
  take-nil (suc n) = refl

  drop-nil : (n : ℕ) → drop {A = A} n [] ≡ []
  drop-nil zero = refl
  drop-nil (suc n) = refl

  take-drop : (n m : ℕ) (xs : List A) → take n xs ++ take m (drop n xs) ≡ take (n + m) xs
  take-drop zero m xs = let e : m ≡ 0 + m = omega arith in ap (λ j. take j xs) e
  take-drop (suc n) m [] = take-nil m ∙ sym (take-nil (suc n + m))
  take-drop (suc n) m (x ∷ xs) =
      let e : suc (n + m) ≡ suc n + m = omega arith in
      ap (λ ys. x ∷ ys) (take-drop n m xs) ∙ ap (λ j. take j (x ∷ xs)) e

  drop-drop : (n m : ℕ) (xs : List A) → drop m (drop n xs) ≡ drop (n + m) xs
  drop-drop zero m xs = let e : m ≡ 0 + m = omega arith in ap (λ j. drop j xs) e
  drop-drop (suc n) m [] = drop-nil m ∙ sym (drop-nil (suc n + m))
  drop-drop (suc n) m (x ∷ xs) =
      let e : suc (n + m) ≡ suc n + m = omega arith in
      drop-drop n m xs ∙ ap (λ j. drop j (x ∷ xs)) e

  take-all : (n : ℕ) (xs : List A) → length xs ≤ n → take n xs ≡ xs
  take-all zero [] h = refl
  take-all zero (x ∷ xs) h = absurd (omega arith)
  take-all (suc n) [] h = refl
  take-all (suc n) (x ∷ xs) h = ap (λ ys. x ∷ ys) (take-all n xs (omega arith))

module _ {A : Type 0} {B : Type 0} (f : A → B) where
  map-append : (xs ys : List A) → map f xs ++ map f ys ≡ map f (xs ++ ys)
  map-append [] ys = refl
  map-append (x ∷ xs) ys = ap (λ zs. f x ∷ zs) (map-append xs ys)

  -- A page, and the pages behind it.
  pages_next :
      (size k q : ℕ) (xs : List A)
      → map f (take size (drop ((suc q - 1) * size) xs))
          ++ map f (take (k * size) (drop (suc q * size) xs))
        ≡ map f (take (suc k * size) (drop (q * size) xs))
  pages_next size k q xs =
      let page : suc q - 1 ≡ q = omega arith in
      let next : suc q * size ≡ q * size + size = ground arith in
      let more : suc k * size ≡ size + k * size = ground arith in
      rw (page, next, more, sym (drop-drop (q * size) size xs))
        (map-append (take size (drop (q * size) xs)) _
          ∙ ap (map f) (take-drop size (k * size) (drop (q * size) xs)))

module _ (e : Env) (user_id : ℕ) where
  -- The user's servers, the newest first.
  abbrev pub newest_first : e.Db → List Server
  newest_first s =
      e.servers.order_by newest_server (keep (is_user_server user_id) (e.servers.rows s))

module _ (e : Env) (user_id size : ℕ) where
  -- The servers on `k` pages, the first of them behind `q` others.
  unfoldable pub read_pages : ℕ → ℕ → Act (World e) (List ServerResp)
  read_pages zero q = pure []
  read_pages (suc k) q = do
    found ← list e user_id (pos (suc q)) (pos size)
    rest ← read_pages k (suc q)
    pure (found.servers ++ rest)

module _ (e : Env) (laws : DatabaseLaws e.database) (user_id : ℕ) where
  -- One page, as the repository answers it.
  Server-list_lem :
      (page size : ℕ) (s t : e.Db) (found : List Server × ℕ)
      → Server.list e.database user_id page size s ≡ (ok found, t)
      → (found.0 ≡ take size (drop ((page - 1) * size) (newest_first e user_id s)))
        × (found.1 ≡ length (keep (is_user_server user_id) (e.servers.rows s)))
        × (e.servers.rows t ≡ e.servers.rows s)
  unfolding Server.list
  Server-list_lem page size s t found h =
      let p = is_user_server user_id in
      let o = (page - 1) * size in
      let (total, u, counted, next) = continue-eq-ok (e.servers.count p s) _ h in
      let (rows, v, paged, end) = continue-eq-ok (e.servers.page p newest_server o size u) _ next in
      let r0 : rows ≡ found.0 = ground (arith, end) in
      let r1 : total ≡ found.1 = ground (arith, end) in
      let st : v ≡ t = ground (arith, end) in
      let kept : e.servers.rows u ≡ e.servers.rows s =
        subst (λ r. e.servers.rows r.1 ≡ e.servers.rows s) counted
          (laws.more_servers.count_rows p s) in
      let total_is : total ≡ length (keep p (e.servers.rows s)) =
        subst (λ r. Counts p (e.servers.rows s) r.0) counted (laws.more_servers.count_lem p s) in
      let rows_is : rows ≡ take size (drop o (newest_first e user_id u)) =
        subst (λ r. Pages (newest_first e user_id u) o size r.0) paged
          (laws.more_servers.page_lem p newest_server o size u) in
      let still : e.servers.rows v ≡ e.servers.rows u =
        subst (λ r. e.servers.rows r.1 ≡ e.servers.rows u) paged
          (laws.more_servers.page_rows p newest_server o size u) in
      (
        sym r0
            ∙ (rows_is
                ∙ ap (λ xs. take size (drop o (e.servers.order_by newest_server (keep p xs))))
                    kept),
        sym r1 ∙ total_is,
        ap e.servers.rows (sym st) ∙ (still ∙ kept),
      )

  -- One page, as the service answers it.
  list_lem :
      (page size : ℕ) (w w' : World e) (found : ServerListResp)
      → list e user_id (pos page) (pos size) w ≡ (ok found, w')
      → (found.servers
          ≡ map to_server_resp (take size (drop ((page - 1) * size) (newest_first e user_id w.db))))
        × (e.servers.rows w'.db ≡ e.servers.rows w.db)
  unfolding list
  list_lem page size w w' found h =
      let (u, x, guarded, next) =
        continue-eq-ok (throw_if (is_bad_page (pos page) (pos size)) (biz 400 "分页参数无效") w) _ h in
      let here = throw_if-eq-ok (is_bad_page (pos page) (pos size)) (biz 400 "分页参数无效") w guarded in
      let m = on_db e (Server.list e.database user_id page size) in
      let (rows, v, recoded, end) = continue-eq-ok (recode (biz 500 "服务器列表查询失败") m x) _ next in
      let ran = recode-eq-ok (biz 500 "服务器列表查询失败") m x recoded in
      let out = Server.list e.database user_id page size x.db in
      let answered : out.0 ≡ ok rows = ap (λ r. r.0) ran in
      let lem = Server-list_lem page size x.db out.1 rows (ap (λ q. (q, out.1)) answered) in
      let shown : map to_server_resp rows.0 ≡ found.servers = ground (arith, end) in
      let at_end : v ≡ w' = ground (arith, end) in
      (
        sym shown
            ∙ (ap (map to_server_resp) lem.0
                ∙ ap
                    (λ z.
                      map to_server_resp
                        (take size (drop ((page - 1) * size) (newest_first e user_id z.db))))
                    (sym here.1)),
        ap (λ z. e.servers.rows z.db) (sym at_end)
            ∙ (ap (λ r. e.servers.rows r.1.db) (sym ran)
                ∙ (lem.2 ∙ ap (λ z. e.servers.rows z.db) (sym here.1))),
      )

  read_pages_from :
      (size k q : ℕ) (w w' : World e) (all : List ServerResp)
      → read_pages e user_id size k q w ≡ (ok all, w')
      → all ≡ map to_server_resp (take (k * size) (drop (q * size) (newest_first e user_id w.db)))
  unfolding read_pages
  read_pages_from size zero q w w' all h =
      let none_left : all ≡ [] = ground (arith, h) in
      let z : 0 ≡ 0 * size = omega arith in
      none_left
      ∙ ap (λ j. map to_server_resp (take j (drop (q * size) (newest_first e user_id w.db)))) z
  read_pages_from size (suc k) q w w' all h =
      let (found, u, listed, next) =
        continue-eq-ok (list e user_id (pos (suc q)) (pos size) w) _ h in
      let (rest, v, read, end) = continue-eq-ok (read_pages e user_id size k (suc q) u) _ next in
      let lem = list_lem (suc q) size w u found listed in
      let put : found.servers ++ rest ≡ all = ground (arith, end) in
      let tail =
        read_pages_from size k (suc q) u v rest read
        ∙ ap
            (λ rows. map to_server_resp (
              take (k * size) (
                drop (suc q * size)
                  (e.servers.order_by newest_server (keep (is_user_server user_id) rows)))))
            lem.1 in
      let last =
        map to_server_resp (take (k * size) (drop (suc q * size) (newest_first e user_id w.db))) in
      sym put
      ∙ (ap (λ xs. found.servers ++ xs) tail
          ∙ (ap (λ xs. xs ++ last) lem.0
              ∙ pages_next to_server_resp size k q (newest_first e user_id w.db)))

-- The pages from the first one on, read one after the other and each answered, are put together the
-- rows of the user in the order that the database makes of newest ids first, if they are enough for
-- all rows. In a database with the documented laws.
pub read_pages-all :
    (e : Env)
    → DatabaseLaws e.database
    → (user_id size k : ℕ) (w w' : World e) (all : List ServerResp)
    → length (newest_first e user_id w.db) ≤ k * size
    → read_pages e user_id size k 0 w ≡ (ok all, w')
    → all ≡ map to_server_resp (newest_first e user_id w.db)
read_pages-all e laws user_id size k w w' all enough h =
    let xs = newest_first e user_id w.db in
    let z : 0 * size ≡ 0 = omega arith in
    read_pages_from e laws user_id size k 0 w w' all h
    ∙ (ap (λ j. map to_server_resp (take (k * size) (drop j xs))) z
        ∙ ap (map to_server_resp) (take-all (k * size) xs enough))
