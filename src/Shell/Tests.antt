-- ===== src/Shell/Tests.antt =====
-- Runs of lab5/zad1/main.c.
use sys_opy.Common.{ℕ, ◌+◌, ◌≡◌, refl, arith, true, none, some, List, [], ◌∷◌, ◌++◌, inl}
use sys_opy.Shell.HashMap.{HashMap, map_zero, hash_get}
use sys_opy.Shell.HashMap.Denote.{denote, Added, InUse, hash_add-denote, hash_get-denote}
use sys_opy.Shell.Buffer.{Vec, vec_push}
use sys_opy.Shell.Buffer.Push.{IsVec, elems_of, vec_push_lem}
use sys_opy.Shell.Pipeline.{run_pipeline}
use sys_opy.Shell.Pipeline.Chain.{chain, run_pipeline-chain}

-- Two definitions, of two commands and of one; a command is a number here.
abbrev definitions : List (List ℕ)
definitions = (0 ∷ 11 ∷ 12 ∷ []) ∷ (0 ∷ 13 ∷ []) ∷ []

run_pipeline-chain_example : run_pipeline definitions ≡ chain 0 0 (11 ∷ 12 ∷ 13 ∷ [])
run_pipeline-chain_example =
    run_pipeline-chain definitions (omega arith, (omega arith, omega arith))

-- A vector of one element, as the first push leaves it.
abbrev pushed_once : Vec ℕ
pushed_once = record { cap = 0; len = 1; block = some (some 7 ∷ none ∷ none ∷ none ∷ []) }

vec_push_lem_example :
    (v' : Vec ℕ) × (vec_push (λ n. true) pushed_once 8 ≡ some v')
    × IsVec v'
    × (v'.len ≡ pushed_once.len + 1)
    × (elems_of v' ≡ elems_of pushed_once ++ some 8 ∷ [])
vec_push_lem_example =
    vec_push_lem (λ n. true) pushed_once 8 (omega arith, omega arith) (omega arith) refl

hash_add-denote_example : Added {V = ℕ} (λ n. true) map_zero (97 ∷ []) 5
hash_add-denote_example =
    hash_add-denote (λ n. true) map_zero (97 ∷ []) 5 (λ n. refl) (inl refl) (omega arith)

one_key_added : Added {V = ℕ} (λ n. true) map_zero (98 ∷ []) 7
one_key_added =
    hash_add-denote (λ n. true) map_zero (98 ∷ []) 7 (λ n. refl) (inl refl) (omega arith)

abbrev one_key : HashMap ℕ
unfolding one_key_added
one_key = one_key_added.0

one_key-InUse : InUse one_key
unfolding one_key_added
one_key-InUse = one_key_added.2.0

hash_get-denote_example : hash_get one_key (97 ∷ []) ≡ some (denote one_key (97 ∷ []))
hash_get-denote_example = hash_get-denote one_key (97 ∷ []) one_key-InUse
