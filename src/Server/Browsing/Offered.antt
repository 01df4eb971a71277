-- ===== src/Server/Browsing/Offered.antt =====
-- What a page of discovery shows.
use match_camp.Base.{
  ℕ, ◌≤◌, String, ◌≡◌, refl, subst, ◌∙◌, ◌≢◌, ◌⊎◌, inl, inr, true, false, List, [], ◌∷◌, map, arith,
  ℤ, pos, negsuc, length, filter, All, All-map_of, In, In-filter, All-In_self, All-filter_of,
  insert_by, sort_by, All-sort_by, Pairwise, Pairwise-sort_by, Pairwise-map_of, ◌==◌, ==_iff,
  Bool-cases,
}
use match_camp.Database.Discovery.{DiscoveryRow, list_discovery_profiles}
use match_camp.Database.Discovery.Offers.{IsOffer, list_discovery_profiles_offers}
use match_camp.Database.Models.{Uuid, Date, ProfilePhoto, Db}
use match_camp.Database.Profile.{by_position, list_profile_photos}
use match_camp.Database.Result.{Query}
use match_camp.Server.Bodies.{profile_photo_response, ProfileBody}
use match_camp.Server.Browsing.{signed_page, with_photos, discovery}
use match_camp.Server.Paging.{parse_pagination, int32}
use match_camp.Server.Paging.Laws.{parse_pagination_bounds}
use match_camp.Server.Profiles.{local_today}
use match_camp.Server.Response.{profile_list, write_json, CurrentUser}
use match_camp.Text.{Text}
use match_camp.World.Ends.{Ends, and_then-Ends, run_query-Ends, on_error-Ends, Ends-weaken}
use match_camp.World.Ensures.{Yields}
use match_camp.World.Env.{Env, World}
use match_camp.World.Monad.{on_error, run_query}

position_total : (p q : ProfilePhoto) → by_position p q ≡ false → by_position q p ≡ true
position_total p q h = ground arith

position_trans :
    (p q r : ProfilePhoto)
    → by_position p q ≡ true
    → by_position q r ≡ true
    → by_position p r ≡ true
position_trans p q r h k = ground arith

-- The photos of the user on record, all of them, from the first position to the last.
abbrev pub IsGallery : Db → Uuid → List ProfilePhoto → Type 0
IsGallery db user photos =
    All (λ p. (p.user_id ≡ user) × In p db.profile_photos) photos
    × All (λ p. (p.user_id ≢ user) ⊎ In p photos) db.profile_photos
    × Pairwise (λ p q. p.position ≤ q.position) photos

In-insert_by :
    (p q : ProfilePhoto) (ps : List ProfilePhoto)
    → In p (q ∷ ps)
    → In p (insert_by by_position q ps)
unfolding insert_by
In-insert_by p q [] h = h
In-insert_by p q (r ∷ ps) h = elim (Bool-cases (by_position q r)) [
  | inl first ↦ rw first h
  | inr later ↦ rw later (elim h [
    | inl e ↦ inr (In-insert_by p q ps (inl e))
    | inr (inl e) ↦ inl e
    | inr (inr there) ↦ inr (In-insert_by p q ps (inr there))
  ])
]

In-sort_by : (p : ProfilePhoto) (ps : List ProfilePhoto) → In p ps → In p (sort_by by_position ps)
unfolding sort_by
In-sort_by p [] h = h
In-sort_by p (q ∷ ps) (inl e) = In-insert_by p q (sort_by by_position ps) (inl e)
In-sort_by p (q ∷ ps) (inr h) = In-insert_by p q (sort_by by_position ps) (inr (In-sort_by p ps h))

list_profile_photos-Yields :
    (user : Uuid) (db : Db)
    → Yields (λ photos db'. (db' ≡ db) × IsGallery db user photos) (list_profile_photos user db)
unfolding list_profile_photos
list_profile_photos-Yields user db =
    let own : List ProfilePhoto = filter (λ p. p.user_id == user) db.profile_photos in
    (
      refl,
      (
        All-sort_by by_position _ own (
            All-filter_of _ (λ p. In p db.profile_photos) _
              (λ p there h. ((==_iff p.user_id user).0 h, there)) db.profile_photos
              (All-In_self db.profile_photos)),
        All-map_of (λ p. In p db.profile_photos) _
            (λ p there. elim (Bool-cases (p.user_id == user)) [
              | inl mine ↦ inr (
                  In-sort_by p own (
                    In-filter (λ (q : ProfilePhoto). q.user_id == user) p db.profile_photos mine
                      there))
              | inr other ↦ inl (λ e. absurd (ground (arith, e, other)))
            ])
            db.profile_photos (All-In_self db.profile_photos),
        Pairwise-map_of (λ p q h. ground arith) _
            (Pairwise-sort_by by_position position_total position_trans own),
      ),
    )

-- An item shows an offer to the reader, with the photos of the user that it names.
abbrev pub IsShownOffer : Date → Uuid → Db → ProfileBody → Type 0
IsShownOffer today reader db item =
    (row : DiscoveryRow) × (photos : List ProfilePhoto) × IsOffer today reader db row
    × (item.id ≡ row.id)
    × (item.photos ≡ map profile_photo_response photos)
    × IsGallery db row.id photos

-- The errors of the endpoint.
abbrev pub DiscoveryRefused : Db → String → Db → Type 0
DiscoveryRefused before code after =
    In code ("discovery_failed" ∷ "discovery_photos_failed" ∷ []) × (after ≡ before)

module _ (env : Env) (today shown_on : Date) (reader : Uuid) (before : Db) where
  with_photos-Ends :
      (rows : List DiscoveryRow) (w : World)
      → w.db ≡ before
      → All (IsOffer today reader before) rows
      → Ends
          (λ items db'.
            (db' ≡ before)
            × All (IsShownOffer today reader before) items
            × (length items ≡ length rows))
          (DiscoveryRefused before)
          (with_photos env shown_on rows w)
  unfolding with_photos
  with_photos-Ends [] w same offers = (same, tt, refl)
  with_photos-Ends (row ∷ rows) w same offers =
      and_then-Ends (λ photos db'. (db' ≡ before) × IsGallery before row.id photos) _ Refusal
        (on_error (run_query (list_profile_photos row.id)) (λ _. "discovery_photos_failed") w) _
        (on_error-Ends _ Refusal (run_query (list_profile_photos row.id))
          (λ _. "discovery_photos_failed") w
          (Ends-weaken _ _ _ _ (run_query (list_profile_photos row.id) w)
            (λ photos db' k. (k.0 ∙ same, subst (λ d. IsGallery d row.id photos) same k.1))
            (λ e db' k. (inr (inl refl), k ∙ same))
            (run_query-Ends _ (list_profile_photos row.id) w
              (list_profile_photos-Yields row.id w.db))))
        λ photos w₁ h₁.
          and_then-Ends
            (λ items db'.
              (db' ≡ before)
              × All (IsShownOffer today reader before) items
              × (length items ≡ length rows))
            _ Refusal (with_photos env shown_on rows w₁) _ (with_photos-Ends rows w₁ h₁.0 offers.1)
            λ items w₂ h₂.
              (h₂.0, ((row, photos, offers.0, refl, refl, h₁.1), h₂.1), omega (arith, h₂.2))
    where
      Refusal : String → Db → Type 0
      Refusal = DiscoveryRefused before

signed_page-Yields :
    (today : Date) (reader : Uuid) (limit : ℕ) (offset : ℤ) (db : Db)
    → Yields
        (λ rows db'. (db' ≡ db) × All (IsOffer today reader db) rows × (length rows ≤ limit))
        (signed_page (list_discovery_profiles today reader) (pos limit) offset db)
signed_page-Yields today reader limit (pos offset) db =
    let (rows, e, short, offers) = list_discovery_profiles_offers today reader limit offset db in
    rw e (refl, offers, short)
signed_page-Yields today reader limit (negsuc offset) db = tt

-- GET /v1/discovery changes no table. A 200 shows at most 100 profiles, each of another user who is
-- visible, on whom the reader has not swiped, with no block between the two, and of an age that the
-- reader wants where both are known, and each with all photos of the user, no others, in order. The
-- only errors are discovery_failed and discovery_photos_failed.
pub discovery-Ends :
    (env : Env) (user : CurrentUser) (limit_param offset_param : Text) (w : World)
    → Ends
        (λ resp db'.
          (db' ≡ w.db)
          × (items : List ProfileBody) × (resp ≡ write_json 200 (profile_list items))
          × (length items ≤ 100)
          × All (IsShownOffer (env.db_date w.db.now) user.id w.db) items)
        (DiscoveryRefused w.db)
        (discovery env user limit_param offset_param w)
unfolding discovery
discovery-Ends env user limit_param offset_param w =
    let today : Date = env.db_date w.db.now in
    let limit : ℕ = (parse_pagination limit_param offset_param 25 100).0 in
    let offset : ℕ = (parse_pagination limit_param offset_param 25 100).1 in
    let bounds =
      parse_pagination_bounds limit_param offset_param 25 100 (omega arith) (omega arith)
        (omega arith) in
    let q : Query (List DiscoveryRow) = λ db.
      signed_page (list_discovery_profiles (env.db_date db.now) user.id) (int32 limit)
        (int32 offset) db in
    and_then-Ends
      (λ rows db'. (db' ≡ w.db) × All (IsOffer today user.id w.db) rows × (length rows ≤ limit)) _
      Refusal (on_error (run_query q) (λ _. "discovery_failed") w) _
      (on_error-Ends _ Refusal (run_query q) (λ _. "discovery_failed") w
        (Ends-weaken _ _ _ _ (run_query q w) (λ _ _ k. k) (λ e db' k. (inl refl, k))
          (run_query-Ends _ q w
            (rw (bounds.2) (signed_page-Yields today user.id limit (int32 offset) w.db)))))
      λ rows w₁ h₁.
        and_then-Ends (λ _ db'. db' ≡ w.db) _ Refusal (local_today env w₁) _
          (unfold local_today in h₁.0)
          λ shown_on w₂ h₂.
            and_then-Ends
              (λ items db'.
                (db' ≡ w.db)
                × All (IsShownOffer today user.id w.db) items
                × (length items ≡ length rows))
              _ Refusal (with_photos env shown_on rows w₂) _
              (with_photos-Ends env today shown_on user.id w.db rows w₂ h₂ h₁.1)
              λ items w₃ h₃. (h₃.0, items, refl, omega (arith, h₃.2, h₁.2, bounds.1), h₃.1)
  where
    Refusal : String → Db → Type 0
    Refusal = DiscoveryRefused w.db
