-- ===== src/TextSearch/Tests.antt =====
-- Searches of lab3/zad3/main.c.
use mathlib.Core.List.{Memᴰ}
use mathlib.Core.Option.{some-injective}
use sys_opy.Common.{
  ◌≡◌, ◌↔◌, ◌⊎◌, refl, sym, ap, true, false, Option, some, List, [], ◌∷◌, inr, arith,
}
use sys_opy.DirWalk.{Text, Stat, Dir}
use sys_opy.DirWalk.Path.{all_clean, no_slash}
use sys_opy.TextSearch.{is_binary, found, absent, aborted, search_file, walk, Report}
use sys_opy.Common.Int.{pos}
use sys_opy.TextSearch.Files.{Finds, search_file_lem, search_file-aborts}
use sys_opy.TextSearch.Listing.{Listed, Has}
use sys_opy.TextSearch.Program.{main, searcher, exited, parse_int, main-finds}

abbrev root : Text
root = b'.' ∷ []

abbrev ab : Text
ab = b'a' ∷ b'b' ∷ []

abbrev xaby : Text
xaby = b'x' ∷ b'a' ∷ b'b' ∷ b'y' ∷ []

search_file_lem_example :
    ((search_file ab false xaby ≡ some found) × Finds ab false xaby)
    ⊎ ((search_file ab false xaby ≡ some absent) × (Finds ab false xaby → ⊥))
search_file_lem_example =
    search_file_lem ab false xaby (omega arith) (omega arith) (inr (omega arith))

search_file-aborts_example : search_file ab false (b'a' ∷ []) ≡ some aborted
search_file-aborts_example =
    search_file-aborts ab false (b'a' ∷ []) (omega arith) (omega arith) refl

-- Every path is a readable file with the same contents, but for the root.
abbrev file : Text → Option Stat
file path = some (record { mode = 33188; size = 4; owner = 0; group = 0 })

abbrev filled : Text → Option Text
filled path = some xaby

abbrev listing : Text → Option Dir
listing path = some ((b'f' ∷ []) ∷ [], true)

listing_clean : (p : Text) (dir : Dir) → listing p ≡ some dir → all_clean dir.0 ≡ true
unfolding all_clean no_slash
listing_clean p dir e =
    ap (λ d. all_clean d.0) (sym (some-injective ((b'f' ∷ []) ∷ [], true) dir e))

parsed_one : parse_int (b'1' ∷ []) ≡ some (pos 1)
unfolding parse_int
parsed_one = refl

abbrev args : List Text
args = root ∷ (ab ∷ ((b'1' ∷ []) ∷ []))

abbrev one : Report
one = record { printed = (b'.' ∷ (b'/' ∷ (b'f' ∷ []))) ∷ []; good = true }

searched : main 0 0 file filled listing (λ dir. true) args ≡ exited one
unfolding main searcher walk
searched = refl

main-finds_example : Memᴰ (b'.' ∷ (b'/' ∷ (b'f' ∷ []))) one.printed ↔ (
    Listed 0 0 file listing 0 root (b'.' ∷ (b'/' ∷ (b'f' ∷ [])))
    × Has 0 0 ab file filled (b'.' ∷ (b'/' ∷ (b'f' ∷ []))))
main-finds_example =
    main-finds 0 0 file filled listing (λ dir. true) root ab (b'1' ∷ []) 0 (omega arith)
      (omega arith) refl parsed_one listing_clean one searched refl (b'.' ∷ (b'/' ∷ (b'f' ∷ [])))

-- The name `a.o.o` does not count as that of an object file.
second_ending : is_binary (b'a' ∷ b'.' ∷ b'o' ∷ b'.' ∷ b'o' ∷ []) ≡ false
unfolding is_binary
second_ending = refl
