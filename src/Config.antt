-- ===== src/Config.antt =====
-- internal/config/config.go: the files hosts.txt and rule.txt, which hold one pair of words in a
-- line. A file is its text; opening and writing it is in Config.Stored.
pub mod Lines
pub mod Saved
pub mod Listen
pub mod Stored
use dns_automatic_traffic_sp.Base.{
  ℕ, Bool, true, false, ◌&&◌, ◌||◌, not, Option, none, some, List, [], ◌∷◌, ◌++◌, map,
  if◌then◌else◌, leb, ltb, ◌==◌,
}
use dns_automatic_traffic_sp.Base.Text.{
  Text, codes, is_empty, is_space, has_prefix, to_lower, trim_space, trim_suffix,
}
use dns_automatic_traffic_sp.Base.Scanner.{ScanError, scan_lines}
use dns_automatic_traffic_sp.Base.Maps.{Map, lookup, insert}

abbrev pub push_word : Text → List Text → List Text
push_word [] ws = ws
push_word (c ∷ w) ws = (c ∷ w) ∷ ws

-- The word that the text begins with, which may be empty, and the words behind it.
unfoldable pub split_word : Text → Text × List Text
split_word [] = ([], [])
split_word (c ∷ s) =
    let (w, ws) = split_word s in if is_space c then ([], push_word w ws) else (c ∷ w, ws)

-- strings.Fields
unfoldable pub fields : Text → List Text
unfolding split_word
fields s = let (w, ws) = split_word s in push_word w ws

-- A blank line or a comment, for a line without white space around it.
abbrev pub is_skipped : Text → Bool
is_skipped line = is_empty line || has_prefix line (codes "#")

abbrev pub set_all : Text → List Text → Map Text → Map Text
set_all ip [] hosts = hosts
set_all ip (domain ∷ domains) hosts = set_all ip domains (insert (to_lower domain) ip hosts)

-- What is done with the fields of a line of each file.
abbrev pub add_hosts : List Text → Map Text → Map Text
add_hosts [] hosts = hosts
add_hosts (ip ∷ []) hosts = hosts
add_hosts (ip ∷ domain ∷ domains) hosts = set_all ip (domain ∷ domains) hosts

abbrev pub add_rule : List Text → Map Text → Map Text
add_rule [] rules = rules
add_rule (domain ∷ []) rules = rules
add_rule (domain ∷ target ∷ more) rules = insert (to_lower domain) (to_lower target) rules

-- One turn of the loop over the lines, and the loop.
unfoldable pub load_line : (List Text → Map Text → Map Text) → Text → Map Text → Map Text
load_line add line m =
    let trimmed = trim_space line in if is_skipped trimmed then m else add (fields trimmed) m

unfoldable pub load_lines : (List Text → Map Text → Map Text) → List Text → Map Text → Map Text
unfolding load_line
load_lines add [] m = m
load_lines add (line ∷ lines) m = load_lines add lines (load_line add line m)

-- The map behind the loop, and the error of the scanner, which both functions return.
unfoldable pub load_hosts_file : Text → Map Text → Map Text × Option ScanError
unfolding load_lines
load_hosts_file file hosts =
    let (lines, err) = scan_lines file in (load_lines add_hosts lines hosts, err)

unfoldable pub load_rules_file : Text → Map Text → Map Text × Option ScanError
unfolding load_lines
load_rules_file file rules =
    let (lines, err) = scan_lines file in (load_lines add_rule lines rules, err)

-- The order of Go's strings, byte by byte.
unfoldable pub text_leb : Text → Text → Bool
text_leb [] t = true
text_leb (a ∷ s) [] = false
text_leb (a ∷ s) (b ∷ t) = ltb a b || (a == b && text_leb s t)

-- sort.Strings
unfoldable pub insert_sorted : Text → List Text → List Text
unfolding text_leb
insert_sorted k [] = k ∷ []
insert_sorted k (j ∷ ks) = if text_leb k j then k ∷ j ∷ ks else j ∷ insert_sorted k ks

unfoldable pub sort_texts : List Text → List Text
unfolding insert_sorted
sort_texts [] = []
sort_texts (k ∷ ks) = insert_sorted k (sort_texts ks)

abbrev pub keys : Map Text → List Text
keys [] = []
keys ((k, v) ∷ m) = k ∷ keys m

-- `m[k]`, empty for a missing key
abbrev pub value_at : Map Text → Text → Text
value_at m k = elim (lookup k m) [ none ↦ [] | some v ↦ v ]

unfoldable pub write_pairs : (Text → Text → Text) → Map Text → List Text → Text
write_pairs line m [] = []
write_pairs line m (k ∷ ks) = line k (value_at m k) ++ 10 ∷ write_pairs line m ks

unfoldable pub marshal_pairs : Map Text → (Text → Text → Text) → Text
unfolding write_pairs sort_texts
marshal_pairs m line = write_pairs line m (sort_texts (keys m))

abbrev pub hosts_line : Text → Text → Text
hosts_line domain ip = ip ++ b' ' ∷ domain

abbrev pub rules_line : Text → Text → Text
rules_line domain target = domain ++ b' ' ∷ target

unfoldable pub save_hosts_file : Map Text → Text
unfolding marshal_pairs
save_hosts_file hosts = marshal_pairs hosts hosts_line

unfoldable pub save_rules_file : Map Text → Text
unfolding marshal_pairs
save_rules_file rules = marshal_pairs rules rules_line
