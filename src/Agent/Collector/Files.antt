-- ===== src/Agent/Collector/Files.antt =====
-- internal/agent/collector.go: parseProperties, readKeyValueFile, readLimits, conciseCommandError,
-- ProcessDetail's children and open files, and the image ids of readDockerImages. A file that cannot
-- be read is `none`.
use servora.Prelude.{
  ==_iff, Bool, Bool-cases, Eq, List, Option, Table, Text, [], any_of, ap, arith, bytes, cut_at,
  drop, false, fields, has_prefix, if◌then◌else◌, inl, inr, join_words, keep, length, ltb, map,
  none, not, put, refl, some, split_at, take, trim_spaces, ℕ, ◌&&◌, ◌++◌, ◌-◌, ◌==◌, ◌∷◌, ◌≡◌,
  text_eq, nat_eq,
}

abbrev add_property :
    (trim : Text → Text) → Option (Text × Text) → Table Text Text → Table Text Text
add_property trim none out = out
add_property trim (some (key, value)) out = put (trim key) (trim value) out

-- The lines that have the separator, later ones over earlier ones of the same key.
unfoldable pub pairs_from :
    (sep : ℕ) (trim : Text → Text) → List Text → Table Text Text → Table Text Text
pairs_from sep trim [] out = out
pairs_from sep trim (line ∷ lines) out =
    pairs_from sep trim lines (add_property trim (cut_at sep line) out)

unfoldable pub parse_properties : Text → Table Text Text
unfolding pairs_from
parse_properties raw = pairs_from b'=' (λ s. s) (split_at b'\n' raw) []

unfoldable pub read_key_value_file : Option Text → Table Text Text
unfolding pairs_from
read_key_value_file none = []
read_key_value_file (some raw) = pairs_from b':' trim_spaces (split_at b'\n' raw) []

-- The name of a limit is its words but the last two.
abbrev limit_of : List Text → Option (Text × Text)
limit_of words = elim (drop (length words - 2) words) [
  | soft ∷ hard ∷ [] ↦
      if ltb (length words) 3
      then none
      else some (join_words (take (length words - 2) words), soft ++ bytes " / " ++ hard)
  | _ ↦ none
]

abbrev add_limit : Option (Text × Text) → Table Text Text → Table Text Text
add_limit none out = out
add_limit (some (name, value)) out = put name value out

unfoldable pub limits_from : List Text → Table Text Text → Table Text Text
limits_from [] out = out
limits_from (line ∷ lines) out = limits_from lines (add_limit (limit_of (fields line)) out)

unfoldable pub read_limits : Option Text → Table Text Text
unfolding limits_from
read_limits none = []
read_limits (some raw) = limits_from (drop 1 (split_at b'\n' raw)) []

-- "…" is three bytes.
unfoldable pub concise_command_error : Text → Text
concise_command_error raw =
    let output = trim_spaces raw in
    if output == []
    then bytes "command failed"
    else if ltb 240 (length output)
    then take 240 output ++ bytes "…"
    else output

-- The first of each: the children of a process (0 stands for a field that is no number above it), and
-- the ids of `docker image ls`.
unfoldable pub distinct_from : {A : Type 0} ⦃e : Eq A⦄ → (seen : List A) → List A → List A
distinct_from seen [] = []
distinct_from seen (x ∷ xs) =
    let later = distinct_from (x ∷ seen) xs in
    let rest = distinct_from seen xs in if any_of (λ s. s == x) seen then rest else x ∷ later

unfoldable pub children_of : List ℕ → List ℕ
unfolding distinct_from
children_of numbers = distinct_from [] (keep (λ n. ltb 0 n) numbers)

unfoldable pub image_ids : Text → List Text
unfolding distinct_from
image_ids output = distinct_from [] (fields output)

-- At most 100 targets of open files that are neither sockets nor pipes; `none` is a link that cannot
-- be read.
abbrev is_open_file : Option Text → Bool
is_open_file none = false
is_open_file (some target) =
    not (has_prefix target (bytes "socket:")) && not (has_prefix target (bytes "pipe:"))

abbrev target_of : Option Text → Text
target_of none = []
target_of (some target) = target

unfoldable pub open_files : List (Option Text) → List Text
open_files links = take 100 (map target_of (keep is_open_file links))

-- No element of the list is in `seen`, and none stands twice.
abbrev pub AreNew : {A : Type 0} ⦃e : Eq A⦄ → (seen : List A) → List A → Type 0
AreNew seen [] = Unit
AreNew seen (x ∷ xs) = (any_of (λ s. s == x) seen ≡ false) × AreNew (x ∷ seen) xs

distinct_from-AreNew :
    {A : Type 0} ⦃e : Eq A⦄ (seen xs : List A) → AreNew seen (distinct_from seen xs)
unfolding distinct_from
distinct_from-AreNew seen [] = tt
distinct_from-AreNew seen (x ∷ xs) = elim (Bool-cases (any_of (λ s. s == x) seen)) [
  | inl old ↦ rw old (distinct_from-AreNew seen xs)
  | inr new ↦ rw new (new, distinct_from-AreNew (x ∷ seen) xs)
]

any_of-distinct_from :
    {A : Type 0} ⦃e : Eq A⦄ (y : A) (seen xs : List A)
    → any_of (λ s. s == y) seen ≡ false
    → any_of (λ s. s == y) (distinct_from seen xs) ≡ any_of (λ s. s == y) xs
unfolding distinct_from any_of
any_of-distinct_from y seen [] h = refl
any_of-distinct_from y seen (x ∷ xs) h = ground (
  arith,
  any_of-distinct_from y seen xs h,
  any_of-distinct_from y (x ∷ seen) xs,
  ==_iff x y,
  ap (λ z. any_of (λ s. s == z) seen) {x = x} {y = y},
)

-- The ids that image inspect is asked about are those of the output, each once.
pub image_ids-AreNew :
    (output id : Text)
    → AreNew [] (image_ids output)
      × (any_of (λ s. s == id) (image_ids output) ≡ any_of (λ s. s == id) (fields output))
unfolding image_ids
image_ids-AreNew output id = (
  distinct_from-AreNew [] (fields output),
  any_of-distinct_from id [] (fields output) (unfold any_of in refl),
)
