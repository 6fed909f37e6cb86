-- ===== src/Tests/Brackets.antt =====
-- Brackets.
use lamp.Prelude.{ℕ, true, suc, some, List, [], ◌∷◌, ◌≡◌, refl, inl, get_elem?}
use lamp.Text.{Text, codes}
use lamp.Regex
use lamp.Expression.{drop_angles, ends_in_operator, end_step, scan_end, close_expression}
use lamp.Expression.Steps.{closes}
use lamp.Expression.Forward.{close_expression_sound}
use lamp.Expression.Backward.{reverse_close_expression}
use lamp.Expression.RoundTrip.{reverse_close_expression-Balanced}
use lamp.Expression.Balance.{Balanced, nil, plain, nest}
use lamp.Expression.Lines.{close_expression_lines}

brackets : Unit {0}
unfolding close_expression drop_angles ends_in_operator end_step scan_end Regex.match Regex.search
brackets = tt

abbrev lines : List Text
lines = codes "f(a[i]," ∷ codes "g<int>(x)," ∷ codes "b) + c" ∷ []

close_test :
    close_expression lines 0 1 ≡ some (record { line = codes "b) + c"; linenum = 2; pos = some 2 })
unfolding brackets
close_test = refl

-- At the second `<` of a shift the search begins with no bracket, and ends at another one.
shift_test :
    close_expression (codes "x <<(a)" ∷ []) 0 3
    ≡ some (record { line = codes "x <<(a)"; linenum = 0; pos = some 7 })
unfolding brackets
shift_test = refl

close_expression_sound_example :
    (get_elem? lines 2 ≡ some (codes "b) + c"))
    × (i : ℕ) × (d : ℕ) × (2 ≡ suc i)
    × (get_elem? (codes "b) + c") i ≡ some d)
    × (closes 40 d ≡ true)
unfolding brackets
close_expression_sound_example =
    close_expression_sound lines 0 1 40 2 (codes "f(a[i],")
      (record { line = codes "b) + c"; linenum = 2; pos = some 2 }) refl refl (inl refl) refl refl

Balanced-arguments : Balanced (codes "a[i],")
Balanced-arguments =
    plain b'a' _ refl
      (nest b'[' b']' (codes "i") (codes ",") refl (plain b'i' _ refl nil) (plain b',' _ refl nil))

close_expression_lines_example :
    close_expression (codes "f(a[" ∷ codes "i]" ∷ codes ",)" ∷ []) 0 1
    ≡ some (record { line = codes ",)"; linenum = 2; pos = some 2 })
close_expression_lines_example =
    close_expression_lines [] (codes "i]" ∷ []) [] b'(' b')' (codes "f") (codes "a[") (codes ",") []
      refl Balanced-arguments

reverse_close_expression_example :
    (close_expression (codes "f(a[i],);" ∷ []) 0 1
      ≡ some (record { line = codes "f(a[i],);"; linenum = 0; pos = some 8 }))
    × (reverse_close_expression (codes "f(a[i],);" ∷ []) 0 7
        ≡ some (record { line = codes "f(a[i],);"; linenum = 0; pos = some 1 }))
reverse_close_expression_example =
    reverse_close_expression-Balanced (codes "f(a[i],);" ∷ []) 0 b'(' b')' (codes "f")
      (codes "a[i],") (codes ";") refl refl Balanced-arguments
