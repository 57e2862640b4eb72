-- ===== src/Web/Groups/Own.antt =====
-- What a user's requests leave alone: the groups of everybody else.
use spliit_mcp.Prelude.{
  ◌≡◌, ◌≢◌, refl, ap, sym, ◌∙◌, String, Option, none, some, arith, eq_iff, ◌==◌, find_first,
  find_first, find_first-passes, Bool-cases, inl, inr,
}
use spliit_mcp.Text.{trim_space, is_blank}
use spliit_mcp.Store.Rows
use spliit_mcp.Store.Rows.{StoreError, User, Time, Db, Result, ok, err}
use spliit_mcp.Store.Groups
use spliit_mcp.Store.Groups.{is_row}
use spliit_mcp.Store.Scope.{groups_of}
use spliit_mcp.Store.Isolation.{GroupWrite, create, update, delete, groups_of-GroupWrite}
use spliit_mcp.Spliit.Model.{Participant, GroupForm}
use spliit_mcp.Spliit.Participants.{find_participant, find_participant_by_name}
use spliit_mcp.Tools.World.{Env, World, read}
use spliit_mcp.Tools.Clients
use spliit_mcp.Tools.Sends.{bind-Guarded, send-Guarded, lift-Guarded}
use spliit_mcp.Spliit.Links.{extract_group_id}
use spliit_mcp.Tools.Groups.{new_row}
use spliit_mcp.Web.Reply.{Body, error, go, stored, asked}
use spliit_mcp.Web.Reply.Keeps.{
  Keeps, Any, then-yields, pure-eq-go, then-Keeps, bind-Keeps, pure-Keeps, answer-Keeps, body-Keeps,
  asked-Keeps, write-Keeps,
}
use spliit_mcp.Web.Reply.Steps.{and_then-eq-go, of_stored-eq-go, query-eq-ok}
use spliit_mcp.Web.NewGroup.{Built, built, refused, short_participant, short_group}
use spliit_mcp.Web.Me.{group_missing}
use spliit_mcp.Web.Groups as Handlers
use spliit_mcp.Web.Groups.{
  Joining, NewGroup, GroupEdit, stamped, given_id, insert, with_alias, with_participant,
  participant_or_bad, form_or_bad, filled, resolve_base_url, existing_row, edited, save,
  conflict_or_internal,
}

module _ (v : String) where
  pub given_id-Keeps : (ref : String) → Keeps v (given_id ref)
  unfolding given_id
  given_id-Keeps ref = elim (Bool-cases (extract_group_id (trim_space ref) == "")) [
    | inl none_given ↦ rw none_given (answer-Keeps v 400 _)
    | inr given ↦ rw given (pure-Keeps v _)
  ]

  participant-Keeps : (o : Option Participant) → Keeps v (participant_or_bad o)
  unfolding participant_or_bad
  participant-Keeps none = answer-Keeps v 400 _
  participant-Keeps (some p) = pure-Keeps v p

  module _ {D : Type 0} (env : Env D) where
    pub group-Keeps :
        (message base_url id : String) → Keeps v (asked message (Clients.get_group env base_url id))
    unfolding Clients.get_group
    group-Keeps message base_url id =
        asked-Keeps v env message (Clients.get_group env base_url id)
          (bind-Guarded Any _ _ (send-Guarded Any env env.api.group _ tt) (λ o. lift-Guarded Any _))

    send_new-Keeps :
        (default_url : String) (user : User) (message base_url : String) (form : GroupForm)
        → Keeps v (asked message (Handlers.send_new env default_url user base_url form))
    unfolding Handlers.send_new
    send_new-Keeps default_url user message base_url form =
        asked-Keeps v env message _ (send-Guarded Any env env.api.new_id _ tt)

    module _ (default_url : String) (user : User) (other : v ≢ user.sub) where
      keeps-GroupWrite :
          {db db' : Db} → GroupWrite env.engine user.sub db db' → groups_of v db' ≡ groups_of v db
      keeps-GroupWrite w = groups_of-GroupWrite v user.sub other env.engine w

      insert-Keeps :
          (taken : Body) (row : Rows.Group)
          → row.user_sub ≡ user.sub
          → Keeps v (insert env default_url user taken row)
      unfolding insert
      insert-Keeps taken row mine =
          bind-Keeps v _ _
            (write-Keeps v env (conflict_or_internal taken)
              (λ fault now id db. Groups.create_group env.engine fault now id row db)
              (λ fault now id db. keeps-GroupWrite (create fault now id row mine)))
            (λ created. pure-Keeps v _)

      pub remove-Keeps : (id : String) → Keeps v (Handlers.remove env default_url user id)
      unfolding Handlers.remove
      remove-Keeps id =
          bind-Keeps v _ _
            (write-Keeps v env group_missing
              (λ fault now fresh db. Groups.delete_group env.engine fault user.sub id db)
              (λ fault now fresh db. keeps-GroupWrite (delete fault id)))
            (λ u. pure-Keeps v _)

      pub create-Keeps :
          (given : Option Joining) → Keeps v (Handlers.create env default_url user given)
      unfolding Handlers.create
      create-Keeps given = bind-Keeps v _ _ (body-Keeps v given) (λ body.
          bind-Keeps v _ _ (given_id-Keeps body.group_id) (λ id.
            elim (Bool-cases (is_blank body.participant_id)) [
              | inl blank ↦ rw blank (answer-Keeps v 400 _)
              | inr there ↦ rw there (
                  bind-Keeps v _ _ (group-Keeps _ _ id) (λ group.
                    bind-Keeps v _ _ (participant-Keeps _) (λ p.
                      insert-Keeps _
                        (new_row user.sub (resolve_base_url default_url body.base_url body.group_id)
                          group (filled (trim_space body.alias) group.name) (some p))
                        refl)))
            ]))

      -- The group behind a new ID is read and joined.
      create_and_join-Keeps :
          (base_url alias your_name : String) (form : GroupForm)
          → Keeps v (Handlers.create_and_join env default_url user base_url alias your_name form)
      unfolding Handlers.create_and_join
      create_and_join-Keeps base_url alias your_name form =
          bind-Keeps v _ _ (send_new-Keeps default_url user _ base_url form) (λ id.
            bind-Keeps v _ _ (group-Keeps _ base_url id) (λ group.
              insert-Keeps _
                (new_row user.sub base_url group (filled (trim_space alias) group.name)
                  (find_participant_by_name env.fold group your_name))
                refl))

      form-Keeps : (b : Built) → Keeps v (form_or_bad b)
      unfolding form_or_bad
      form-Keeps (built form) = pure-Keeps v form
      form-Keeps (refused (short_participant n)) = answer-Keeps v 400 _
      form-Keeps (refused short_group) = answer-Keeps v 400 _

      pub create_new-Keeps :
          (lower : String → String) (given : Option NewGroup)
          → Keeps v (Handlers.create_new env default_url user lower given)
      unfolding Handlers.create_new
      create_new-Keeps lower given = bind-Keeps v _ _ (body-Keeps v given) (λ body.
          elim (Bool-cases (trim_space body.name == "")) [
            | inl blank ↦ rw blank (answer-Keeps v 400 _)
            | inr named ↦
                rw named
                  (elim (Bool-cases (filled (trim_space body.your_name) user.display_name == "")) [
                    | inl nobody ↦ rw nobody (answer-Keeps v 400 _)
                    | inr you ↦ rw you (
                        bind-Keeps v _ _ (form-Keeps _) (λ form.
                          create_and_join-Keeps _ body.alias
                            (filled (trim_space body.your_name) user.display_name) form))
                  ])
          ])

      -- The row that is found is the user's.
      get_group-own :
          (fault : Option String) (db : Db) (id : String) (g : Rows.Group)
          → Groups.get_group fault db user.sub id ≡ ok g
          → g.user_sub ≡ user.sub
      unfolding Groups.get_group is_row
      get_group-own fault db id g h =
          let found : find_first (is_row user.sub id) db.groups ≡ some g =
            (query-eq-ok fault "get group" _ h).0 in
          ground (
            arith,
            find_first-passes (is_row user.sub id) db.groups g found,
            eq_iff g.user_sub user.sub,
          )

      existing-own :
          (id : String) (w : World) (g : Rows.Group)
          → (existing_row env default_url user id w).0 ≡ go g
          → g.user_sub ≡ user.sub
      unfolding existing_row read stored
      existing-own id w g h = get_group-own _ w.db id g (of_stored-eq-go group_missing _ h)

      existing-Keeps : (id : String) → Keeps v (existing_row env default_url user id)
      unfolding existing_row read stored
      existing-Keeps id = record { from = λ w. refl }

      alias-Keeps : (alias : Option String) (row : Rows.Group) → Keeps v (with_alias alias row)
      unfolding with_alias
      alias-Keeps none row = pure-Keeps v row
      alias-Keeps (some given) row = elim (Bool-cases (trim_space given == "")) [
        | inl blank ↦ rw blank (answer-Keeps v 400 _)
        | inr named ↦ rw named (pure-Keeps v _)
      ]

      alias-own :
          (alias : Option String) (row row' : Rows.Group) (w : World)
          → (with_alias alias row w).0 ≡ go row'
          → row'.user_sub ≡ row.user_sub
      unfolding with_alias
      alias-own none row row' w h =
          let e : row ≡ row' = cc h in ap (λ (r : Rows.Group). r.user_sub) (sym e)
      alias-own (some given) row row' w h = elim (Bool-cases (trim_space given == "")) [
        | inl blank ↦ cc (rw blank at h)
        | inr named ↦
            let e : record row { alias = trim_space given } ≡ row' = cc (rw named at h) in
            ap (λ (r : Rows.Group). r.user_sub) (sym e)
      ]

      pinned-Keeps :
          (id : Option String) (row : Rows.Group)
          → Keeps v (with_participant env default_url user id row)
      unfolding with_participant
      pinned-Keeps none row = pure-Keeps v row
      pinned-Keeps (some id) row =
          bind-Keeps v _ _ (group-Keeps _ row.base_url row.spliit_group_id)
            (λ group. bind-Keeps v _ _ (participant-Keeps _) (λ p. pure-Keeps v _))

      abbrev SameUser : Rows.Group → Rows.Group → Type 0
      SameUser row r = r.user_sub ≡ row.user_sub

      pinned-own :
          (id : Option String) (row row' : Rows.Group) (w : World)
          → (with_participant env default_url user id row w).0 ≡ go row'
          → row'.user_sub ≡ row.user_sub
      unfolding with_participant
      pinned-own none row row' w h =
          let e : row ≡ row' = cc h in ap (λ (r : Rows.Group). r.user_sub) (sym e)
      pinned-own (some id) row row' w h =
          then-yields (SameUser row)
            (asked "could not fetch that group: "
              (Clients.get_group env row.base_url row.spliit_group_id) w)
            _
            (λ group w2 b k.
              then-yields (SameUser row) (participant_or_bad (find_participant group id) w2) _
                (λ p w3 c l.
                  let e = pure-eq-go _ c w3 l in ap (λ (r : Rows.Group). r.user_sub) (sym e))
                b k)
            row' h

      edited-own :
          (body : GroupEdit) (row row' : Rows.Group) (w : World)
          → (edited env default_url user body row w).0 ≡ go row'
          → SameUser row row'
      unfolding edited
      edited-own body row row' w h =
          let (named, e, k) =
            and_then-eq-go (with_alias body.alias row w)
              (with_participant env default_url user body.participant_id) h in
          pinned-own body.participant_id named row' _ k
          ∙ alias-own body.alias row named w (ap (λ r. r.0) e)

      edited-Keeps :
          (body : GroupEdit) (row : Rows.Group) → Keeps v (edited env default_url user body row)
      unfolding edited
      edited-Keeps body row =
          bind-Keeps v _ _ (alias-Keeps body.alias row)
            (λ named. pinned-Keeps body.participant_id named)

      stamped-db : (row : Rows.Group) (r : Result (Unit {0}) × Db) → (stamped row r).1 ≡ r.1
      stamped-db row (ok x, db) = refl
      stamped-db row (err x, db) = refl

      save-Keeps :
          (row : Rows.Group) → row.user_sub ≡ user.sub → Keeps v (save env default_url user row)
      unfolding save
      save-Keeps row mine =
          bind-Keeps v _ _
            (write-Keeps v env (conflict_or_internal (error "that alias is already taken"))
              (λ fault now fresh db.
                stamped (record row { updated_at = now })
                  (Groups.update_group env.engine fault now row db))
              (λ fault now fresh db.
                ap (groups_of v) (stamped-db _ _) ∙ keeps-GroupWrite (update fault now row mine)))
            (λ saved. pure-Keeps v _)

      pub update-Keeps :
          (id : String) (given : Option GroupEdit)
          → Keeps v (Handlers.update env default_url user id given)
      unfolding Handlers.update
      update-Keeps id given = bind-Keeps v _ _ (body-Keeps v given) (λ body. record {
        from = λ w.
            then-Keeps v w (existing_row env default_url user id w) _ ((existing-Keeps id).from w)
              (λ row e. record {
                from = λ w2.
                    then-Keeps v w2 (edited env default_url user body row w2) _
                      ((edited-Keeps body row).from w2)
                      (λ row' e'.
                        save-Keeps row' (edited-own body row row' w2 e' ∙ existing-own id w row e));
              });
      })
