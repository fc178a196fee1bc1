-- ===== src/Avatars/Lookup.antt =====
-- The route `/avatars/users` of src/modules/media/media.routes.ts, which looks avatars up by the ids
-- of its query.
pub mod Tokens
pub mod Found
use crm_media.Base.{
  ℕ, zero, suc, Bool, true, false, not, ◌&&◌, ◌||◌, List, [], ◌∷◌, ◌++◌, Option, none, some, Text,
  codes, text_eq, map, length, ltb, leb, ◌==◌, if◌then◌else◌,
}
use crm_media.FileValidation.Names.{trim}
use crm_media.Avatars.{distinct_ids, is_hex}
use crm_media.Avatars.Current.{Row, Items, fallback_dto, get_current_avatars_by_users}

abbrev pub max_avatar_lookup_ids : ℕ
max_avatar_lookup_ids = 100

-- `item.split(",")`
unfoldable pub split_commas : Text → List Text
split_commas [] = [] ∷ []
split_commas (c ∷ s) =
    let rest = split_commas s in
    if c == b','
    then [] ∷ rest
    else elim rest [ [] ↦ (c ∷ []) ∷ [] | part ∷ parts ↦ (c ∷ part) ∷ parts ]

unfoldable pub split_all : List Text → List Text
split_all [] = []
split_all (item ∷ items) = split_commas item ++ split_all items

unfoldable pub is_named : Text → Bool
is_named id =
    ltb 0 (length id) && (not (text_eq id (codes "null")) && not (text_eq id (codes "undefined")))

unfoldable pub filter : (Text → Bool) → List Text → List Text
filter p [] = []
filter p (id ∷ ids) = let rest = filter p ids in if p id then id ∷ rest else rest

-- `c.req.queries("ids")`, and `c.req.query("ids")` where that is empty.
unfoldable pub raw_list : List Text → Option Text → List Text
raw_list (item ∷ items) single = item ∷ items
raw_list [] none = []
raw_list [] (some []) = []
raw_list [] (some (c ∷ item)) = (c ∷ item) ∷ []

unfoldable pub unique_tokens : List Text → List Text
unique_tokens raw = distinct_ids [] (filter is_named (map trim (split_all raw)))

unfoldable pub hexes : ℕ → List (ℕ → Bool)
hexes zero = []
hexes (suc n) = is_hex ∷ hexes n

-- `UUID_PATTERN`, one test for each character.
unfoldable pub uuid_pattern : List (ℕ → Bool)
uuid_pattern =
    let dash : ℕ → Bool = λ c. c == b'-' in
    let version : ℕ → Bool = λ c. leb b'1' c && leb c b'8' in
    let variant : ℕ → Bool =
      λ c. c == b'8' || (c == b'9' || (c == b'a' || (c == b'b' || (c == b'A' || c == b'B')))) in
    hexes 8
    ++ (dash
        ∷ (hexes 4
            ++ (dash ∷ version ∷ (hexes 3 ++ (dash ∷ variant ∷ (hexes 3 ++ (dash ∷ hexes 12)))))))

unfoldable pub fits : List (ℕ → Bool) → Text → Bool
fits [] [] = true
fits [] (c ∷ s) = false
fits (p ∷ ps) [] = false
fits (p ∷ ps) (c ∷ s) = p c && fits ps s

unfoldable pub is_uuid : Text → Bool
is_uuid id = fits uuid_pattern id

pub data Answer : Type 0 where
  too_many lookup_failed : Answer
  found : Items → Answer

module _ (resolve_deterministic_avatar : Text → ℕ × Text) (tiered : Bool)
    (query : List Text → Option (List Row)) where
  -- The loop over the ids that are no UUIDs.
  unfoldable pub put_others : List Text → Items → Items
  put_others [] items = items
  put_others (id ∷ ids) items =
      put_others ids ((id, fallback_dto resolve_deterministic_avatar tiered id) ∷ items)

  unfoldable pub answer_items : List Text → Option Items → Answer
  answer_items others none = lookup_failed
  answer_items others (some items) = found (put_others others items)

  unfoldable pub answer_tokens : List Text → Answer
  answer_tokens [] = found []
  answer_tokens (id ∷ ids) = answer_items (filter (λ token. not (is_uuid token)) (id ∷ ids)) (
      get_current_avatars_by_users resolve_deterministic_avatar tiered query
        (filter is_uuid (id ∷ ids)))

  unfoldable pub get_users : List Text → Option Text → Answer
  get_users query_list single =
      let tokens = unique_tokens (raw_list query_list single) in
      if ltb max_avatar_lookup_ids (length tokens) then too_many else answer_tokens tokens
