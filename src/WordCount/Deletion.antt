-- ===== src/WordCount/Deletion.antt =====
-- lab1/zad1/libwc.c: what deleting a result leaves in the table.
use sys_opy.Common.{
  get_or-set, ℕ, ◌<◌, ◌≡◌, refl, ◌∙◌, ◌↔◌, inl, inr, Bool, true, ◌&&◌, if◌then◌else◌, leb, ◌==◌,
  none, some, get_or, set, length-set, arith, Bool-cases, Option-cases,
}
use sys_opy.Common.Int.{pos}
use sys_opy.WordCount.{Text, Context, libwc_del_result, libwc_get_result}
use sys_opy.WordCount.Results.{IsValid, leb-false}

-- What one deletion has done.
pub record Deleted (ctx : Context) (h : ℕ) (r : Bool × Context) : Type 0 where
  pub valid : IsValid r.1
  pub succeeds : (r.0 ≡ true) ↔ ((text : Text) × (libwc_get_result ctx (pos h) ≡ some (some text)))
  pub reads :
      (i : ℕ)
      → get_or r.1.results i none ≡ (if r.0 && (h == i) then none else get_or ctx.results i none)

cleared-Deleted :
    (ctx : Context) (h : ℕ) (text : Text)
    → IsValid ctx
    → h < ctx.len
    → get_or ctx.results h none ≡ some text
    → Deleted ctx h (true, record ctx { results = set ctx.results h none })
unfolding libwc_get_result
cleared-Deleted ctx h text v lt found =
    let reads : (i : ℕ)
        → get_or (set ctx.results h none) i none
          ≡ (if h == i then none else get_or ctx.results i none) =
      λ i. get_or-set ctx.results h i none none (omega (arith, v.width, v.within)) in
    record {
      valid = record {
        width = length-set ctx.results h none ∙ v.width;
        within = v.within;
        bytes = v.bytes;
        unused = λ i le. reads i ∙ ground (arith, v.unused i);
      };
      succeeds = (λ e. (text, ground arith), λ t. refl);
      reads = reads;
    }

-- Deleting a handle succeeds exactly when the handle gives a result; it then gives none, and every
-- other handle gives what it gave. Otherwise nothing changes. The table stays valid either way.
pub libwc_del_result_lem :
    (ctx : Context) (h : ℕ) → IsValid ctx → Deleted ctx h (libwc_del_result ctx (pos h))
unfolding libwc_del_result libwc_get_result
libwc_del_result_lem ctx h v = elim (Bool-cases (leb ctx.len h)) [
  | inl above ↦ rw above (record {
    valid = v;
    succeeds = (λ e. cc, λ t. absurd (ground (arith, t.1)));
    reads = λ i. refl;
  })
  | inr below ↦ elim (Option-cases (get_or ctx.results h none)) [
    | inl null ↦
        rw (below, null)
          (record {
            valid = v;
            succeeds = (λ e. cc, λ t. absurd (ground (arith, t.1)));
            reads = λ i. refl;
          })
    | inr (text, found) ↦
        rw (below, found)
          (cleared-Deleted ctx h text v (omega (arith, leb-false ctx.len h below)) found)
  ]
]
