-- ===== src/Files.antt =====
-- src/files.rs: the file at the end of a path.
use Prim.Native.String.{String, ◌++◌ as str_append}
use Prim.Native.Char.{code}
use text.Mathlib.Text.{◌==◌ as str_eq, starts_with}
use wtfis_stalling.Base.{Bool, ◌||◌, ◌==◌, if◌then◌else◌}
use wtfis_stalling.Stacks.Set.{to_ascii_lowercase}

-- `rsplit(['\\', '/']).next()`, with what has been read since the last separator.
abbrev base_from : String → String → String
base_from part String.[] = part
base_from part (String.◌∷◌ c s) =
    let next = base_from "" s in
    let longer = base_from (str_append part (String.◌∷◌ c "")) s in
    if code c == 92 || code c == 47 then next else longer

unfoldable pub base_name : String → String
base_name path = base_from "" path

unfoldable pub is_paging_file : String → Bool
unfolding base_name to_ascii_lowercase
is_paging_file path =
    let f = to_ascii_lowercase (base_name path) in
    str_eq f "pagefile.sys" || str_eq f "swapfile.sys"

-- `contains` and `ends_with`.
unfoldable pub contains : String → String → Bool
contains String.[] t = starts_with "" t
contains (String.◌∷◌ c s) t = starts_with (String.◌∷◌ c s) t || contains s t

unfoldable pub ends_with : String → String → Bool
ends_with String.[] t = str_eq "" t
ends_with (String.◌∷◌ c s) t = str_eq (String.◌∷◌ c s) t || ends_with s t
