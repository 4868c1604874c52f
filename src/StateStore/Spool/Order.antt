-- ===== src/StateStore/Spool/Order.antt =====
-- Rows in ascending order of their ids, and what the WHERE clauses select from them.
use netlog_ai.Prelude.{
  ℕ, suc, ◌+◌, String, ◌≡◌, ◌≢◌, refl, List, [], ◌∷◌, arith, leb, str_eq, eq_iff, length, inl, inr,
  Bool-cases, Ascends, Ascends-lower,
}
use netlog_ai.StateStore.Spool.{Row, Line, of_source, after, upto, insert_rows, delete_upto}

-- ids ascend strictly, from `lo` up to below `hi`
abbrev pub Between : ℕ → ℕ → List Row → Type 0
Between = Ascends (λ r. r.id)

pub insert_rows-Between :
    (src : String) (id : ℕ) (ls : List Line) → Between id (id + length ls) (insert_rows src id ls)
unfolding insert_rows
insert_rows-Between src id [] = omega arith
insert_rows-Between src id (l ∷ ls) = (
  omega arith,
  let e : suc id + length ls ≡ id + suc (length ls) = omega arith in
      rw e at (insert_rows-Between src (suc id) ls),
)

pub length-insert_rows :
    (src : String) (id : ℕ) (ls : List Line) → length (insert_rows src id ls) ≡ length ls
unfolding insert_rows
length-insert_rows src id [] = refl
length-insert_rows src id (l ∷ ls) = omega (arith, length-insert_rows src (suc id) ls)

pub of_source-insert_rows :
    (src : String) (id : ℕ) (ls : List Line)
    → of_source src (insert_rows src id ls) ≡ insert_rows src id ls
unfolding insert_rows
of_source-insert_rows src id [] = refl
of_source-insert_rows src id (l ∷ ls) =
    ground (arith, eq_iff src src, of_source-insert_rows src (suc id) ls)

pub of_source-insert_rows_ne :
    (src o : String) (id : ℕ) (ls : List Line) → o ≢ src → of_source o (insert_rows src id ls) ≡ []
unfolding insert_rows
of_source-insert_rows_ne src o id [] h = refl
of_source-insert_rows_ne src o id (l ∷ ls) h =
    ground (arith, eq_iff src o, of_source-insert_rows_ne src o (suc id) ls)

-- what a DELETE leaves of its own source, and of another
pub of_source-delete_upto :
    (src : String) (b : ℕ) (l : List Row)
    → of_source src (delete_upto src b l) ≡ after b (of_source src l)
unfolding delete_upto
of_source-delete_upto src b [] = refl
of_source-delete_upto src b (r ∷ rs) = ground (arith, of_source-delete_upto src b rs)

pub of_source-delete_upto_ne :
    (src o : String) (b : ℕ) (l : List Row)
    → o ≢ src
    → of_source o (delete_upto src b l) ≡ of_source o l
unfolding delete_upto
of_source-delete_upto_ne src o b [] h = refl
of_source-delete_upto_ne src o b (r ∷ rs) h =
    ground (arith, eq_iff r.source src, eq_iff r.source o, of_source-delete_upto_ne src o b rs h)

pub delete_upto-Between :
    (src : String) (b lo hi : ℕ) (l : List Row)
    → Between lo hi l
    → Between lo hi (delete_upto src b l)
unfolding delete_upto
delete_upto-Between src b lo hi [] h = h
delete_upto-Between src b lo hi (r ∷ rs) h = elim (Bool-cases (str_eq r.source src)) [
  | inl e ↦ elim (Bool-cases (leb r.id b)) [
    | inl f ↦
        rw (e, f)
          (Ascends-lower (λ r. r.id) lo (suc r.id) hi (delete_upto src b rs) (omega arith)
            (delete_upto-Between src b (suc r.id) hi rs h.1))
    | inr f ↦ rw (e, f) (h.0, delete_upto-Between src b (suc r.id) hi rs h.1)
  ]
  | inr e ↦ rw e (h.0, delete_upto-Between src b (suc r.id) hi rs h.1)
]

-- the rowcount of a DELETE
pub length-delete_upto :
    (src : String) (b : ℕ) (l : List Row)
    → length (delete_upto src b l) + length (upto b (of_source src l)) ≡ length l
unfolding delete_upto
length-delete_upto src b [] = omega arith
length-delete_upto src b (r ∷ rs) = ground (arith, length-delete_upto src b rs)

pub length-after-upto : (b : ℕ) (l : List Row) → length (after b l) + length (upto b l) ≡ length l
length-after-upto b [] = omega arith
length-after-upto b (r ∷ rs) = ground (arith, length-after-upto b rs)
