-- ===== src/Alerts/Addresses.antt =====
-- What NormalizeEmails keeps.
use mathlib.Core.List.{Memᴰ}
use mathlib.Core.List.Memᴰ
use bug_han.Prelude.{
  ◌≡◌, refl, subst, inl, inr, true, false, ◌||◌, List, [], ◌∷◌, ◌++◌, Bytes, codes, arith, eqb,
  eqb_refl, is_empty, trim_space, to_lower, contains, Bool-cases, All, All-append,
}
use bug_han.Alerts.{elem, add_email, email_loop, normalize_emails}

-- an address: not empty and with an at sign
pub record IsAddress (e : Bytes) : Type 0 where
  pub given : is_empty e ≡ false
  pub at_sign : contains e (codes "@") ≡ true

-- no address stands twice
abbrev pub AreDistinct : List Bytes → Type 0
AreDistinct [] = Unit {0}
AreDistinct (e ∷ out) = (elem e out ≡ false) × AreDistinct out

abbrev pub cleaned : Bytes → Bytes
cleaned given = to_lower (trim_space given)

elem-append : (e f : Bytes) (out : List Bytes) → elem e (out ++ f ∷ []) ≡ (elem e out || eqb f e)
unfolding elem
elem-append e f [] = ground arith
elem-append e f (g ∷ out) = ground (arith, elem-append e f out)

eqb_comm : (a b : Bytes) → eqb a b ≡ eqb b a
eqb_comm [] [] = refl
eqb_comm [] (x ∷ b) = refl
eqb_comm (x ∷ a) [] = refl
eqb_comm (x ∷ a) (y ∷ b) = ground (arith, eqb_comm a b)

elem-cons :
    (e f : Bytes) (out : List Bytes)
    → elem e (f ∷ out) ≡ false
    → (eqb f e ≡ false) × (elem e out ≡ false)
unfolding elem
elem-cons e f out h = (ground arith, ground arith)

append-AreDistinct :
    (out : List Bytes) (e : Bytes)
    → AreDistinct out
    → elem e out ≡ false
    → AreDistinct (out ++ e ∷ [])
append-AreDistinct [] e h new = (unfold elem in refl, tt)
append-AreDistinct (f ∷ out) e (hf, h) new =
    let (other, later) = elem-cons e f out new in
    (rw (elem-append f e out, hf) (rw (eqb_comm e f) other), append-AreDistinct out e h later)

-- the addresses that come from the given ones
abbrev pub From : List Bytes → Bytes → Type 0
From given a = (e : Bytes) × Memᴰ e given × (a ≡ cleaned e)

-- what the loop maintains
pub record Keeps (given out : List Bytes) : Type 0 where
  pub distinct : AreDistinct out
  pub addresses : All IsAddress out
  pub from : All (From given) out

add_email-Keeps :
    (given : List Bytes) (e : Bytes) (out : List Bytes)
    → Memᴰ e given
    → Keeps given out
    → Keeps given (add_email out e)
unfolding add_email
add_email-Keeps given e out m k = elim (Bool-cases (is_empty (cleaned e) || elem (cleaned e) out)) [
  | inl skip ↦ rw skip k
  | inr new ↦ rw new (elim (Bool-cases (contains (cleaned e) (codes "@"))) [
    | inr bad ↦ rw bad k
    | inl good ↦ rw good (record {
      distinct = append-AreDistinct out (cleaned e) k.distinct (ground arith);
      addresses =
          All-append IsAddress out (cleaned e ∷ []) k.addresses
            (record { given = ground arith; at_sign = good }, tt);
      from = All-append (From given) out (cleaned e ∷ []) k.from ((e, m, refl), tt);
    })
  ])
]

email_loop-Keeps :
    (given rest out : List Bytes)
    → All (λ e. Memᴰ e given) rest
    → Keeps given out
    → Keeps given (email_loop out rest)
unfolding email_loop
email_loop-Keeps given [] out h k = k
email_loop-Keeps given (e ∷ rest) out (m, h) k =
    email_loop-Keeps given rest (add_email out e) h (add_email-Keeps given e out m k)

-- an address that was kept stays, and one that is given is kept
add_email-grows :
    (a e : Bytes) (out : List Bytes) → elem a out ≡ true → elem a (add_email out e) ≡ true
unfolding add_email
add_email-grows a e out h = elim (Bool-cases (is_empty (cleaned e) || elem (cleaned e) out)) [
  | inl skip ↦ rw skip h
  | inr new ↦ rw new (elim (Bool-cases (contains (cleaned e) (codes "@"))) [
    | inr bad ↦ rw bad h
    | inl good ↦ rw (good, elem-append a (cleaned e) out, h) refl
  ])
]

add_email-elem :
    (e : Bytes) (out : List Bytes)
    → IsAddress (cleaned e)
    → elem (cleaned e) (add_email out e) ≡ true
unfolding add_email
add_email-elem e out h = elim (Bool-cases (elem (cleaned e) out)) [
  | inl there ↦ rw (h.given, there) there
  | inr new ↦
      rw (h.given, new, h.at_sign, elem-append (cleaned e) (cleaned e) out, new)
        (eqb_refl (cleaned e))
]

email_loop-grows :
    (a : Bytes) (rest out : List Bytes) → elem a out ≡ true → elem a (email_loop out rest) ≡ true
unfolding email_loop
email_loop-grows a [] out h = h
email_loop-grows a (e ∷ rest) out h =
    email_loop-grows a rest (add_email out e) (add_email-grows a e out h)

email_loop-elem :
    (e : Bytes) (rest out : List Bytes)
    → Memᴰ e rest
    → IsAddress (cleaned e)
    → elem (cleaned e) (email_loop out rest) ≡ true
unfolding email_loop
email_loop-elem e [] out m h = absurd (Memᴰ.not-nil m)
email_loop-elem e (d ∷ rest) out (Memᴰ.head same) h =
    let kept : elem (cleaned e) (add_email out d) ≡ true =
      subst (λ d. elem (cleaned e) (add_email out d) ≡ true) same (add_email-elem e out h) in
    email_loop-grows (cleaned e) rest (add_email out d) kept
email_loop-elem e (d ∷ rest) out (Memᴰ.tail m) h = email_loop-elem e rest (add_email out d) m h

everyone :
    (given rest : List Bytes)
    → ((e : Bytes) → Memᴰ e rest → Memᴰ e given)
    → All (λ e. Memᴰ e given) rest
everyone given [] h = tt
everyone given (e ∷ rest) h = (h e (Memᴰ.head refl), everyone given rest (λ d m. h d (Memᴰ.tail m)))

-- The normalised list has no address twice; each is not empty, has an at sign, and is one of the given
-- ones trimmed and in lower case; and every given one that is such an address when trimmed and in
-- lower case is in it.
pub normalize_emails_lem :
    (given : List Bytes)
    → Keeps given (normalize_emails given)
      × ((e : Bytes)
          → Memᴰ e given
          → IsAddress (cleaned e)
          → elem (cleaned e) (normalize_emails given) ≡ true)
unfolding normalize_emails
normalize_emails_lem given = (
  email_loop-Keeps given given [] (everyone given given (λ e m. m))
      (record { distinct = tt; addresses = tt; from = tt }),
  λ e m h. email_loop-elem e given [] m h,
)
