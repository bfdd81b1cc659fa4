-- ===== src/Bridge/Access/Owner.antt =====
-- The owner that the bridge knows, as the application API answers over time.
use lark_coding_agent_bridge.Prelude.{
  String, ◌≡◌, refl, sym, ap, ◌∙◌, ◌≢◌, List, [], ◌∷◌, arith, ◌==◌, eq_iff, if◌then◌else◌, All,
}
use lark_coding_agent_bridge.Bridge.Access.{
  Seat, Fetched, fetched, fetch_failed, refresh_owner, seed_owner, cached_owner,
}

unfoldable pub refresh_all : List Fetched → Seat → Seat
refresh_all [] b = b
refresh_all (f ∷ fs) b = refresh_all fs (refresh_owner f b).0

-- The API never answers with an empty id: it reports an error then.
abbrev pub HasId : Fetched → Type 0
HasId (fetch_failed error) = Unit
HasId (fetched id) = id ≢ ""

unfoldable pub last_owner : String → List Fetched → String
last_owner known [] = known
last_owner known (fetch_failed error ∷ fs) = last_owner known fs
last_owner known (fetched id ∷ fs) = last_owner id fs

-- An owner is known, or the cache has none.
abbrev IsSeeded : Seat → Type 0
IsSeeded b = b.controls.bot_owner_id ≡ "" → cached_owner b.profile ≡ ""

refresh-owner :
    (fs : List Fetched) (b : Seat)
    → All HasId fs
    → IsSeeded b
    → (refresh_all fs b).controls.bot_owner_id ≡ last_owner b.controls.bot_owner_id fs
unfolding refresh_all refresh_owner last_owner
refresh-owner [] b ids seeded = refl
refresh-owner (fetched id ∷ fs) b ids seeded =
    refresh-owner fs (refresh_owner (fetched id) b).0 ids.1 (λ e. absurd (ids.0 e))
refresh-owner (fetch_failed error ∷ fs) b ids seeded =
    let b' = (refresh_owner (fetch_failed error) b).0 in
    let q : b'.controls.bot_owner_id ≡ b.controls.bot_owner_id =
      ground (arith, seeded, eq_iff b.controls.bot_owner_id "") in
    refresh-owner fs b' ids.1 (λ e. seeded (sym q ∙ e)) ∙ ap (λ o. last_owner o fs) q

-- However often the API fails, the bridge never forgets its owner: after the start and any answers the
-- owner is the last one the API named, else the one known before, else the one cached in the config.
pub owner_kept :
    (fs : List Fetched) (b : Seat)
    → All HasId fs
    → (refresh_all fs (seed_owner b)).controls.bot_owner_id
      ≡ last_owner
          (if b.controls.bot_owner_id == ""
            then cached_owner b.profile
            else b.controls.bot_owner_id)
          fs
unfolding seed_owner
owner_kept fs b ids =
    let seeded : IsSeeded (seed_owner b) =
      ground (arith, eq_iff b.controls.bot_owner_id "", eq_iff (cached_owner b.profile) "") in
    let q : (seed_owner b).controls.bot_owner_id ≡ (
        if b.controls.bot_owner_id == "" then cached_owner b.profile else b.controls.bot_owner_id) =
      ground (arith, eq_iff b.controls.bot_owner_id "", eq_iff (cached_owner b.profile) "") in
    refresh-owner fs (seed_owner b) ids seeded ∙ ap (λ o. last_owner o fs) q
