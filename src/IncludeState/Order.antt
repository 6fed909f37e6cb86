-- ===== src/IncludeState/Order.antt =====
-- Which headers `CheckNextIncludeOrder` finds out of order, whatever came before.
use lamp.Prelude.{
  Bool, true, false, ◌||◌, List, [], ◌∷◌, ◌≡◌, ◌≢◌, ◌↔◌, refl, arith, leb, some, none, Option, ap,
  ◌∙◌, if◌then◌else◌,
}
use lamp.IncludeState.{
  HeaderType, c_sys_header, cpp_sys_header, likely_my_header, possible_my_header, other_header,
  Section, initial_section, my_h_section, c_section, cpp_section, other_h_section, rank,
  IncludeState, next_section, order_message, check_next_include_order, reset_section,
}
use lamp.Text.{Text, concat}

-- The state after the headers have been checked in order.
abbrev pub checked : IncludeState → List HeaderType → IncludeState
checked s [] = s
checked s (t ∷ ts) = checked (check_next_include_order s t).0 ts

abbrev pub is_my : HeaderType → Bool
is_my likely_my_header = true
is_my possible_my_header = true
is_my _ = false

abbrev pub is_cpp : HeaderType → Bool
is_cpp cpp_sys_header = true
is_cpp _ = false

abbrev pub is_other : HeaderType → Bool
is_other other_header = true
is_other _ = false

abbrev has : (HeaderType → Bool) → List HeaderType → Bool
has p [] = false
has p (t ∷ ts) = p t || has p ts

-- The headers hold one that is neither of the system nor of the file itself, or one of the file
-- itself behind one that is not.
abbrev pub has_other_headers : List HeaderType → Bool
has_other_headers [] = false
has_other_headers (t ∷ ts) =
    is_other t || (if is_my t then has_other_headers ts else (has is_my ts || has is_other ts))

-- `CheckNextIncludeOrder` should complain of a header that stands behind these.
abbrev pub is_out_of_order : List HeaderType → HeaderType → Bool
is_out_of_order ts c_sys_header = has_other_headers ts || has is_cpp ts
is_out_of_order ts cpp_sys_header = has_other_headers ts
is_out_of_order ts _ = false

abbrev section_or : Section → Option Section → Section
section_or s none = s
section_or s (some t) = t

-- the section alone
sections : Section → List HeaderType → Section
sections s [] = s
sections s (t ∷ ts) = sections (section_or s (next_section s t)) ts

checked-sections :
    (s : IncludeState) (ts : List HeaderType) → (checked s ts).section ≡ sections s.section ts
unfolding sections
checked-sections s [] = refl
checked-sections s (t ∷ ts) =
    checked-sections (check_next_include_order s t).0 ts
    ∙ ap (λ x. sections x ts) (unfold check_next_include_order in ground arith)

-- Whether the section behind the headers is past that of the C++ system headers, and past that of
-- the C system headers.
abbrev past_cpp : Section → List HeaderType → Bool
past_cpp initial_section ts = has_other_headers ts
past_cpp my_h_section ts = has_other_headers ts
past_cpp other_h_section ts = true
past_cpp _ ts = has is_my ts || has is_other ts

abbrev past_c : Section → List HeaderType → Bool
past_c initial_section ts = has_other_headers ts || has is_cpp ts
past_c my_h_section ts = has_other_headers ts || has is_cpp ts
past_c c_section ts = has is_my ts || has is_other ts || has is_cpp ts
past_c _ ts = true

sections_past :
    (s : Section) (ts : List HeaderType)
    → (leb 4 (rank (sections s ts)) ≡ past_cpp s ts) × (leb 3 (rank (sections s ts)) ≡ past_c s ts)
unfolding sections
sections_past initial_section [] = (refl, refl)
sections_past _ [] = (refl, refl)
sections_past initial_section (c_sys_header ∷ ts) = ground (arith, sections_past c_section ts)
sections_past s (c_sys_header ∷ ts) = ground (arith, sections_past s ts, sections_past c_section ts)
sections_past s (cpp_sys_header ∷ ts) =
    ground (arith, sections_past s ts, sections_past cpp_section ts)
sections_past s (likely_my_header ∷ ts) =
    ground (arith, sections_past my_h_section ts, sections_past other_h_section ts)
sections_past s (possible_my_header ∷ ts) =
    ground (arith, sections_past my_h_section ts, sections_past other_h_section ts)
sections_past s (other_header ∷ ts) = ground (arith, sections_past other_h_section ts)

order_message-ne-nil : (t : HeaderType) (s : Section) → order_message t s ≢ []
unfolding concat
order_message-ne-nil t s = cc

-- the test by which a header is refused
abbrev is_refused : Section → HeaderType → Bool
is_refused s c_sys_header = leb 3 (rank s)
is_refused s cpp_sys_header = leb 4 (rank s)
is_refused s _ = false

check-is_refused_iff :
    (s : IncludeState) (t : HeaderType)
    → ((check_next_include_order s t).1 ≢ []) ↔ (is_refused s.section t ≡ true)
unfolding check_next_include_order
check-is_refused_iff s c_sys_header = ground (arith, order_message-ne-nil c_sys_header s.section)
check-is_refused_iff s cpp_sys_header =
    ground (arith, order_message-ne-nil cpp_sys_header s.section)
check-is_refused_iff s _ = ground arith

is_refused-sections :
    (ts : List HeaderType) (t : HeaderType)
    → is_refused (sections initial_section ts) t ≡ is_out_of_order ts t
is_refused-sections ts c_sys_header = (sections_past initial_section ts).1
is_refused-sections ts cpp_sys_header = (sections_past initial_section ts).0
is_refused-sections ts _ = refl

-- After `ResetSection` and any headers, the next header gets a message exactly when it is a C
-- system header behind a C++ system header or behind other headers, or a C++ system header behind
-- other headers; a header of the file itself counts as other unless all before it are its own.
pub check_next_include_order_iff :
    (s : IncludeState) (directive : Text) (ts : List HeaderType) (t : HeaderType)
    → ((check_next_include_order (checked (reset_section s directive) ts) t).1 ≢ [])
      ↔ (is_out_of_order ts t ≡ true)
check_next_include_order_iff s directive ts t =
    let reset = reset_section s directive in
    let e : is_refused (checked reset ts).section t ≡ is_out_of_order ts t =
      rw (checked-sections reset ts) (unfold reset_section in is_refused-sections ts t) in
    rw e at (check-is_refused_iff (checked reset ts) t)
