-- ===== src/Http/Access/Roles.antt =====
-- The memberships of a principal are rows of the table of memberships.
use bug_han.Prelude.{
  ◌≡◌, refl, ◌∙◌, ap, false, Option, none, some, List, [], ◌∷◌, Bytes, arith, ◌⊎◌, inl, inr, eqb,
  eqb_sound, is_empty, Bool-cases, All, All-append, Any, Any-map,
}
use bug_han.Ingest.Auth.{get, put}
use bug_han.Ingest.Auth.Maps.{put-All, get-All}
use bug_han.Http.Access.{
  User, MemberRow, UserRow, Membership, Accounts, text_or_empty, member_row, memberships_of,
  left_join, member_rows, add_membership, add_memberships, scan_member_rows,
}

All-map :
    {A : Type 0} (P Q : A → Type 0) (xs : List A) → ((x : A) → P x → Q x) → All P xs → All Q xs
All-map P Q [] f h = tt
All-map P Q (x ∷ xs) f (p, h) = (f x p, All-map P Q xs f h)

All-Any_self : {A : Type 0} (xs : List A) → All (λ x. Any (λ y. y ≡ x) xs) xs
All-Any_self [] = tt
All-Any_self (x ∷ xs) = (inl refl, All-map _ _ xs (λ y a. inr a) (All-Any_self xs))

-- a membership of the user with a role in the organization that has this id or this slug
pub record Grants (organizations : List (Bytes × Bytes)) (user_id in_org as_role : Bytes)
    (m : Membership) : Type 0 where
  pub user : m.user_id ≡ user_id
  pub role : m.role ≡ as_role
  pub org : (m.org_id ≡ in_org) ⊎ (text_or_empty (get m.org_id organizations) ≡ in_org)

module _ (db : Accounts) (user_id : Bytes) where
  abbrev pub IsGranted : Bytes × Bytes → Type 0
  IsGranted (org, role) = Any (Grants db.organizations user_id org role) db.memberships

  -- a joined row grants its role under the id and under the slug, where it has an organization
  abbrev IsTrue : MemberRow → Type 0
  IsTrue r =
      is_empty r.org_id ≡ false → IsGranted (r.org_id, r.role) × IsGranted (r.org_slug, r.role)

  member_row-IsTrue :
      (u : UserRow) (m : Membership)
      → u.id ≡ user_id
      → m.user_id ≡ u.id
      → Any (λ x. x ≡ m) db.memberships
      → IsTrue (member_row db u m)
  unfolding member_row
  member_row-IsTrue u m e f a = λ given. (
    Any-map _ _ db.memberships
        (λ x p. record {
          user = ap (λ y. y.user_id) p ∙ f ∙ e;
          role = ap (λ y. y.role) p;
          org = inl (ap (λ y. y.org_id) p);
        })
        a,
    Any-map _ _ db.memberships
        (λ x p. record {
          user = ap (λ y. y.user_id) p ∙ f ∙ e;
          role = ap (λ y. y.role) p;
          org = inr (ap (λ y. text_or_empty (get y.org_id db.organizations)) p);
        })
        a,
  )

  memberships_of-AreTrue :
      (u : UserRow) (ms : List Membership)
      → u.id ≡ user_id
      → All (λ m. Any (λ x. x ≡ m) db.memberships) ms
      → All IsTrue (memberships_of db u ms)
  unfolding memberships_of
  memberships_of-AreTrue u [] e h = tt
  memberships_of-AreTrue u (m ∷ ms) e (a, h) = elim (Bool-cases (eqb m.user_id u.id)) [
    | inl s ↦
        rw s
          (member_row-IsTrue u m e (eqb_sound m.user_id u.id s) a, memberships_of-AreTrue u ms e h)
    | inr s ↦ rw s (memberships_of-AreTrue u ms e h)
  ]

  left_join-AreTrue :
      (u : UserRow) (rows : List MemberRow) → All IsTrue rows → All IsTrue (left_join u rows)
  unfolding left_join
  left_join-AreTrue u [] h = (λ given. absurd (ground arith), tt)
  left_join-AreTrue u (r ∷ rows) h = h

  member_rows-AreTrue : (users : List UserRow) → All IsTrue (member_rows db user_id users)
  unfolding member_rows
  member_rows-AreTrue [] = tt
  member_rows-AreTrue (u ∷ users) = elim (Bool-cases (eqb u.id user_id)) [
    | inl s ↦ rw s (
        All-append IsTrue (left_join u (memberships_of db u db.memberships))
          (member_rows db user_id users)
          (left_join-AreTrue u _ (
            memberships_of-AreTrue u db.memberships (eqb_sound u.id user_id s)
              (All-Any_self db.memberships)))
          (member_rows-AreTrue users))
    | inr s ↦ rw s (member_rows-AreTrue users)
  ]

  add_membership-AreGranted :
      (m : MemberRow) (memberships : List (Bytes × Bytes))
      → IsTrue m
      → All IsGranted memberships
      → All IsGranted (add_membership m memberships)
  unfolding add_membership
  add_membership-AreGranted m memberships t h = elim (Bool-cases (is_empty m.org_id)) [
    | inl e ↦ rw e h
    | inr e ↦ rw e (
        put-All IsGranted m.org_slug m.role (put m.org_id m.role memberships) (t e).1
          (put-All IsGranted m.org_id m.role memberships (t e).0 h))
  ]

  add_memberships-AreGranted :
      (memberships : List (Bytes × Bytes)) (rows : List MemberRow)
      → All IsTrue rows
      → All IsGranted memberships
      → All IsGranted (add_memberships memberships rows)
  unfolding add_memberships
  add_memberships-AreGranted memberships [] t h = h
  add_memberships-AreGranted memberships (m ∷ rows) (t, ts) h =
      add_memberships-AreGranted (add_membership m memberships) rows ts
        (add_membership-AreGranted m memberships t h)

  -- the memberships of the scanned user are granted
  abbrev pub AreGranted : Option User → Type 0
  AreGranted none = Unit {0}
  AreGranted (some u) = All IsGranted u.memberships

  scan-AreGranted : (rows : List MemberRow) → All IsTrue rows → AreGranted (scan_member_rows rows)
  unfolding scan_member_rows
  scan-AreGranted [] t = tt
  scan-AreGranted (m ∷ rows) t = add_memberships-AreGranted [] (m ∷ rows) t tt

  pub scan_member_rows-AreGranted : AreGranted (scan_member_rows (member_rows db user_id db.users))
  scan_member_rows-AreGranted =
      scan-AreGranted (member_rows db user_id db.users) (member_rows-AreTrue db.users)

  -- what the map of memberships answers is granted
  pub get-IsGranted :
      (org role : Bytes) (memberships : List (Bytes × Bytes))
      → All IsGranted memberships
      → get org memberships ≡ some role
      → IsGranted (org, role)
  get-IsGranted org role memberships h e = get-All IsGranted org role memberships h e
