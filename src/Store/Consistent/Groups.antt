-- ===== src/Store/Consistent/Groups.antt =====
-- The writes to `groups` keep the tables well-formed.
use spliit_mcp.Prelude.{
  String, ◌≡◌, List, [], ◌∷◌, Option, none, some, arith, eq_iff, any, All, is_some, Bool-cases, inl,
  inr,
}
use spliit_mcp.Store.Rows.{User, Group, Db}
use spliit_mcp.Store.Users.{find_user, owns_group}
use spliit_mcp.Store.Groups.{clashes, insert_group_row}
use spliit_mcp.Store.Consistent.{OwnDefault, IsConsistent}
use spliit_mcp.Store.Consistent.Users.{WritesConsistent}

OwnDefault-cons :
    (g : Group) (gs : List Group) (sub : String) (o : Option String)
    → OwnDefault gs sub o
    → OwnDefault (g ∷ gs) sub o
unfolding owns_group any
OwnDefault-cons g gs sub none h = tt
OwnDefault-cons g gs sub (some id) h = ground arith

-- Defaults stay own where every owned group stays.
pub All-OwnDefault :
    (gs hs : List Group) (us : List User)
    → ((sub : String) (o : Option String) → OwnDefault gs sub o → OwnDefault hs sub o)
    → All (λ (u : User). OwnDefault gs u.sub u.default_group_id) us
    → All (λ (u : User). OwnDefault hs u.sub u.default_group_id) us
All-OwnDefault gs hs [] k h = tt
All-OwnDefault gs hs (u ∷ us) k h = (k u.sub u.default_group_id h.0, All-OwnDefault gs hs us k h.1)

pub insert_group_row-WritesConsistent :
    (g : Group) (db : Db) → IsConsistent db → WritesConsistent (insert_group_row g db)
unfolding insert_group_row
insert_group_row-WritesConsistent g db h = elim (Bool-cases (any (clashes g) db.groups)) [
  | inl taken ↦ rw taken tt
  | inr fresh ↦ rw fresh (elim (Bool-cases (is_some (find_user g.user_sub db.users))) [
    | inl known ↦ rw known (record {
      users_distinct = h.users_distinct;
      groups_distinct = (fresh, h.groups_distinct);
      sessions_distinct = h.sessions_distinct;
      groups_owned = (known, h.groups_owned);
      sessions_owned = h.sessions_owned;
      defaults_own =
          All-OwnDefault db.groups (g ∷ db.groups) db.users (OwnDefault-cons g db.groups)
            h.defaults_own;
    })
    | inr unknown ↦ rw unknown tt
  ])
]

-- Clashing does not depend on the order of the two rows.
pub clashes_sym : (g h : Group) → clashes g h ≡ clashes h g
unfolding clashes
clashes_sym g h = ground (
  arith,
  eq_iff g.id h.id,
  eq_iff h.id g.id,
  eq_iff g.user_sub h.user_sub,
  eq_iff h.user_sub g.user_sub,
  eq_iff g.base_url h.base_url,
  eq_iff h.base_url g.base_url,
  eq_iff g.spliit_group_id h.spliit_group_id,
  eq_iff h.spliit_group_id g.spliit_group_id,
  eq_iff g.alias h.alias,
  eq_iff h.alias g.alias,
)
