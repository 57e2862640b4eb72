-- ===== src/Store/Consistent/Writes.antt =====
-- `UpdateGroup` and `DeleteGroup` keep the tables well-formed, default groups included.
use spliit_mcp.Prelude.{
  String, ◌≡◌, refl, Bool, true, false, List, [], ◌∷◌, Option, none, some, arith, ◌==◌, ◌&&◌, not,
  any, keep, map, All, All-keep, Bool-cases, inl, inr, find_first,
}
use spliit_mcp.Store.Rows.{User, Group, Db}
use spliit_mcp.Store.Users.{find_user, owns_group}
use spliit_mcp.Store.Groups.{
  clashes, is_row, update_groups, update_clashes, update_group_row, surviving, clear_default,
  delete_group_row,
}
use spliit_mcp.Store.Consistent.{Distinct, same_sub, HasUser, OwnDefault, IsConsistent}
use spliit_mcp.Store.Consistent.Users.{WritesConsistent, All-HasUser}
use spliit_mcp.Store.Consistent.Groups.{All-OwnDefault}
use spliit_mcp.Store.Consistent.Updates.{update_groups-Distinct}

module _ (f : Group → Group) (sub id : String) (keeps_id : (g : Group) → (f g).id ≡ g.id)
    (keeps_sub : (g : Group) → (f g).user_sub ≡ g.user_sub) where
  owns-update_groups :
      (s i : String) (gs : List Group)
      → owns_group s i (update_groups f sub id gs) ≡ owns_group s i gs
  unfolding owns_group any update_groups
  owns-update_groups s i [] = refl
  owns-update_groups s i (g ∷ gs) =
      ground (arith, keeps_id g, keeps_sub g, owns-update_groups s i gs)

  HasUser-of-update_groups :
      (us : List User) (gs : List Group)
      → All (λ (g : Group). HasUser us g.user_sub) gs
      → All (λ (g : Group). HasUser us g.user_sub) (update_groups f sub id gs)
  unfolding update_groups
  HasUser-of-update_groups us [] h = tt
  HasUser-of-update_groups us (g ∷ gs) h = (
    elim (Bool-cases (is_row sub id g)) [
      | inl same ↦ rw (same, keeps_sub g) h.0
      | inr other ↦ rw other h.0
    ],
    HasUser-of-update_groups us gs h.1,
  )

  OwnDefault-update_groups :
      (gs : List Group) (s : String) (o : Option String)
      → OwnDefault gs s o
      → OwnDefault (update_groups f sub id gs) s o
  OwnDefault-update_groups gs s none h = tt
  OwnDefault-update_groups gs s (some i) h = rw owns-update_groups h

  pub update_group_row-WritesConsistent :
      (db : Db) → IsConsistent db → WritesConsistent (update_group_row f sub id db)
  unfolding update_group_row
  update_group_row-WritesConsistent db h = elim (Bool-cases (update_clashes f sub id db.groups)) [
    | inl taken ↦ rw taken tt
    | inr free ↦ rw free (record {
      users_distinct = h.users_distinct;
      groups_distinct = update_groups-Distinct f sub id db.groups free h.groups_distinct;
      sessions_distinct = h.sessions_distinct;
      groups_owned = HasUser-of-update_groups db.users db.groups h.groups_owned;
      sessions_owned = h.sessions_owned;
      defaults_own =
          All-OwnDefault db.groups _ db.users (OwnDefault-update_groups db.groups) h.defaults_own;
    })
  ]

-- Dropping items keeps a list free of clashes.
any-keep {ℓ} :
    {A : Type ℓ} (p q : A → Bool) (xs : List A) → any p xs ≡ false → any p (keep q xs) ≡ false
unfolding any keep
any-keep p q [] h = refl
any-keep p q (x ∷ xs) h = ground (arith, any-keep p q xs)

pub Distinct-keep {ℓ} :
    {A : Type ℓ} (clash : A → A → Bool) (q : A → Bool) (xs : List A)
    → Distinct clash xs
    → Distinct clash (keep q xs)
unfolding keep
Distinct-keep clash q [] h = tt
Distinct-keep clash q (x ∷ xs) h = elim (Bool-cases (q x)) [
  | inl kept ↦ rw kept (any-keep (clash x) q xs h.0, Distinct-keep clash q xs h.1)
  | inr gone ↦ rw gone (Distinct-keep clash q xs h.1)
]

module _ (gone : String → Bool) where
  any-clear_default :
      (u : User) (us : List User)
      → any (same_sub (clear_default gone u)) (map (clear_default gone) us) ≡ any (same_sub u) us
  unfolding any
  any-clear_default u [] = refl
  any-clear_default u (v ∷ us) = ground (arith, any-clear_default u us)

  Distinct-clear_default :
      (us : List User) → Distinct same_sub us → Distinct same_sub (map (clear_default gone) us)
  Distinct-clear_default [] h = tt
  Distinct-clear_default (u ∷ us) h = (rw any-clear_default h.0, Distinct-clear_default us h.1)

  HasUser-clear_default :
      (us : List User) (s : String) → HasUser us s → HasUser (map (clear_default gone) us) s
  unfolding find_user find_first
  HasUser-clear_default [] s h = h
  HasUser-clear_default (u ∷ us) s h = ground (arith, HasUser-clear_default us s)

  module _ (gs hs : List Group)
      (stays : (s i : String)
        → owns_group s i gs ≡ true
        → gone i ≡ false
        → owns_group s i hs ≡ true) where
    OwnDefault-surviving :
        (s : String) (o : Option String) → OwnDefault gs s o → OwnDefault hs s (surviving gone o)
    OwnDefault-surviving s none h = tt
    OwnDefault-surviving s (some i) h = elim (Bool-cases (gone i)) [
      | inl g ↦ rw g tt
      | inr n ↦ rw n (stays s i h n)
    ]

    OwnDefault-clear_default :
        (us : List User)
        → All (λ (u : User). OwnDefault gs u.sub u.default_group_id) us
        → All (λ (u : User). OwnDefault hs u.sub u.default_group_id) (map (clear_default gone) us)
    OwnDefault-clear_default [] h = tt
    OwnDefault-clear_default (u ∷ us) h =
        (OwnDefault-surviving u.sub u.default_group_id h.0, OwnDefault-clear_default us h.1)

-- A group that is owned stays so when the rows of another ID go.
owns-keep :
    (sub id s i : String) (gs : List Group)
    → owns_group s i gs ≡ true
    → any (λ (g : Group). is_row sub id g && g.id == i) gs ≡ false
    → owns_group s i (keep (λ g. not (is_row sub id g)) gs) ≡ true
unfolding owns_group any keep
owns-keep sub id s i [] h n = h
owns-keep sub id s i (g ∷ gs) h n = ground (arith, owns-keep sub id s i gs)

pub delete_group_row-WritesConsistent :
    (sub id : String) (db : Db) → IsConsistent db → WritesConsistent (delete_group_row sub id db)
unfolding delete_group_row
delete_group_row-WritesConsistent sub id db h = record {
  users_distinct = Distinct-clear_default _ db.users h.users_distinct;
  groups_distinct = Distinct-keep clashes _ db.groups h.groups_distinct;
  sessions_distinct = h.sessions_distinct;
  groups_owned =
      All-HasUser _ db.users _ (keep _ db.groups) (HasUser-clear_default _ db.users)
        (All-keep _ _ db.groups h.groups_owned);
  sessions_owned =
      All-HasUser _ db.users _ db.sessions (HasUser-clear_default _ db.users) h.sessions_owned;
  defaults_own =
      OwnDefault-clear_default _ db.groups _ (λ s i. owns-keep sub id s i db.groups) db.users
        h.defaults_own;
}
