-- ===== src/Stacks/Set.antt =====
-- src/stacks.rs: `Kind`, and `StackSet`, a set of kinds in the bits of a byte.
pub mod RoundTrip
use Prim.Native.Nat.{bit_and, bit_or}
use Prim.Native.String.{String, ◌++◌ as str_append}
use Prim.Native.String
use Prim.Native.Char.{Char, char, code}
use text.Mathlib.Text.{◌==◌ as str_eq}
use wtfis_stalling.Base.{
  ℕ, ◌+◌, ◌-◌, ◌^◌, ◌≡◌, refl, Bool, true, false, not, ◌&&◌, ◌||◌, Option, none, some, List, [],
  ◌∷◌, ◌++◌, map, leb, ◌==◌, if◌then◌else◌, filter,
}

pub data Kind : Type 0 where
  c_switch ready disk_init fault : Kind

abbrev pub all_kinds : List Kind
all_kinds = c_switch ∷ ready ∷ disk_init ∷ fault ∷ []

abbrev pub index : Kind → ℕ
index c_switch = 0
index ready = 1
index disk_init = 2
index fault = 3

unfoldable pub name : Kind → String
name c_switch = "cswitch"
name ready = "ready"
name disk_init = "diskinit"
name fault = "fault"

unfoldable pub bit : Kind → ℕ
bit k = 2 ^ index k

-- A byte.
abbrev pub StackSet : Type 0
StackSet = ℕ

abbrev pub no_stacks : StackSet
no_stacks = 0

unfoldable pub of : List Kind → StackSet
unfolding bit
of [] = 0
of (k ∷ ks) = bit_or (bit k) (of ks)

abbrev pub default_stacks : StackSet
default_stacks = 12

unfoldable pub has : StackSet → Kind → Bool
unfolding bit
has set k = not (bit_and set (bit k) == 0)

-- `self.0 & !bit`, on a byte.
unfoldable pub without : StackSet → Kind → StackSet
unfolding bit
without set k = bit_and set (255 - bit k)

unfoldable pub kinds : StackSet → List Kind
unfolding has
kinds set = filter (has set) all_kinds

-- `join(sep)`.
unfoldable pub join : String → List String → String
join sep [] = ""
join sep (w ∷ []) = w
join sep (w ∷ v ∷ ws) = str_append w (str_append sep (join sep (v ∷ ws)))

abbrev pub names_of : List Kind → String
unfolding join name
names_of [] = "none"
names_of (k ∷ ks) = join "," (map name (k ∷ ks))

unfoldable pub names : StackSet → String
unfolding kinds
names set = names_of (kinds set)

-- `char::is_whitespace`.
abbrev is_space : ℕ → Bool
is_space c =
    leb 9 c && leb c 13
    || c == 32
    || c == 133
    || c == 160
    || c == 5760
    || leb 8192 c && leb c 8202
    || c == 8232
    || c == 8233
    || c == 8239
    || c == 8287
    || c == 12288

abbrev trim_start : String → String
trim_start String.[] = ""
trim_start (String.◌∷◌ c s) =
    let rest = trim_start s in if is_space (code c) then rest else String.◌∷◌ c s

-- The text without the spaces at its end.
abbrev trim_end : String → String
trim_end String.[] = ""
trim_end (String.◌∷◌ c s) =
    let rest = trim_end s in if is_space (code c) && str_eq rest "" then "" else String.◌∷◌ c rest

unfoldable pub trim : String → String
trim s = trim_end (trim_start s)

abbrev lower_letters : String
lower_letters = "abcdefghijklmnopqrstuvwxyz"

abbrev lower_char : Char → Char
lower_char c =
    if leb 65 (code c) && leb (code c) 90 then String.char_at lower_letters (code c - 65) else c

unfoldable pub to_ascii_lowercase : String → String
to_ascii_lowercase String.[] = ""
to_ascii_lowercase (String.◌∷◌ c s) = String.◌∷◌ (lower_char c) (to_ascii_lowercase s)

-- `split(',')`, with what has been read of the part so far.
abbrev split_from : String → String → List String
split_from part String.[] = part ∷ []
split_from part (String.◌∷◌ c s) =
    let next = split_from "" s in
    let longer = split_from (str_append part (String.◌∷◌ c "")) s in
    if code c == 44 then part ∷ next else longer

unfoldable pub words : String → List String
unfolding trim to_ascii_lowercase
words s = filter (λ w. not (str_eq w "")) (map (λ w. to_ascii_lowercase (trim w)) (split_from "" s))

pub data Parsed : Type 0 where
  ok : StackSet → Parsed
  -- The word that is not known.
  unknown_word : String → Parsed

abbrev pub named : String → List Kind → Option Kind
unfolding name
named w [] = none
named w (k ∷ ks) = if str_eq (name k) w then some k else named w ks

-- The loop over the words.
unfoldable pub parse_words : StackSet → List String → Parsed
unfolding bit of
parse_words set [] = ok set
parse_words set (w ∷ ws) =
    let same = parse_words set ws in
    let with_default = parse_words (bit_or set default_stacks) ws in
    let everything = parse_words (of all_kinds) ws in
    if str_eq w "none"
    then same
    else if str_eq w "default"
    then with_default
    else if str_eq w "all"
    then everything
    else elim (named w all_kinds) [
      | none ↦ unknown_word w
      | some k ↦ parse_words (bit_or set (bit k)) ws
    ]

unfoldable pub parse : String → Parsed
unfolding words parse_words
parse s = parse_words no_stacks (words s)

abbrev words_of_kind : Kind → String
words_of_kind c_switch = "thread switches"
words_of_kind ready = "thread wake-ups"
words_of_kind disk_init = "disk requests"
words_of_kind fault = "hard page faults"

-- The words but the last are joined by commas, and the last by "and".
abbrev join_and : List String → String
join_and [] = ""
join_and (w ∷ []) = w
join_and (w ∷ v ∷ []) = str_append w (str_append " and " v)
join_and (w ∷ v ∷ u ∷ ws) = str_append w (str_append ", " (join_and (v ∷ u ∷ ws)))

unfoldable pub plain : StackSet → String
unfolding kinds
plain set = join_and (map words_of_kind (kinds set))

-- A class of the kernel's events and a type in it; the GUIDs are names of the Windows headers.
pub data Class : Type 0 where
  thread disk_io page_fault : Class

abbrev ids_if : Bool → List (Class × ℕ) → List (Class × ℕ)
ids_if b ids = if b then ids else []

unfoldable pub classic_ids : StackSet → List (Class × ℕ)
unfolding has
classic_ids set =
    ids_if (has set c_switch) ((thread, 36) ∷ [])
    ++ (ids_if (has set ready) ((thread, 50) ∷ [])
        ++ (ids_if (has set disk_init) ((disk_io, 12) ∷ (disk_io, 13) ∷ (disk_io, 15) ∷ [])
            ++ ids_if (has set fault) ((page_fault, 32) ∷ [])))

try_parse : parse " Fault, DISKINIT,,ready " ≡ ok 14
unfolding parse words parse_words trim to_ascii_lowercase has bit name of
try_parse = refl

try_names : parse (names 14) ≡ ok 14
unfolding parse words parse_words trim to_ascii_lowercase has bit name of names kinds join
try_names = refl
