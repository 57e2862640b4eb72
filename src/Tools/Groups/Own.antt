-- ===== src/Tools/Groups/Own.antt =====
-- What the tools that change a group leave alone: the groups of everybody but the caller.
use spliit_mcp.Prelude.{
  ℕ, zero, suc, ◌≡◌, ◌≢◌, refl, ◌∙◌, String, Bool, Option, none, some, Bool-cases, inl, inr,
  if◌then◌else◌,
}
use spliit_mcp.Text.{is_blank, trim_space}
use spliit_mcp.Store.Rows
use spliit_mcp.Store.Rows.{Time, Db, Result, ok, err, conflict}
use spliit_mcp.Store.Users
use spliit_mcp.Store.Groups as Table
use spliit_mcp.Store.Settings.{groups_of-set_default_group}
use spliit_mcp.Store.Scope.{groups_of}
use spliit_mcp.Store.Isolation.{create, update, delete, groups_of-GroupWrite}
use spliit_mcp.Spliit.Model.{Participant, Group, GroupForm}
use spliit_mcp.Spliit.Participants.{find_participant, find_participant_by_name, participant_names}
use spliit_mcp.Tools.Outcome.{Outcome}
use spliit_mcp.Tools.World.{Env, World, Action, write}
use spliit_mcp.Tools.Sends.{bind-Guarded, send-Guarded, lift-Guarded}
use spliit_mcp.Tools.Keeps.{
  Keeps, Any, bind-Keeps, if-Keeps, lift-Keeps, Guarded-Keeps, get_group-Keeps, store_write-Keeps,
  resolve_explicit-Keeps, for_row,
}
use spliit_mcp.Tools.GroupForm.{Edits, found_or}
use spliit_mcp.Tools.Groups

module _ (v : String) where
  module _ {D : Type 0} (env : Env D) where
    -- The write of a row of the caller.
    update_row-Keeps :
        (sub : String) (row : Rows.Group)
        → v ≢ sub
        → row.user_sub ≡ sub
        → Keeps v (
            Groups.store_write env
              (λ fault now id db. Table.update_group env.engine fault now row db))
    update_row-Keeps sub row diff mine =
        store_write-Keeps v env (λ fault now id db. Table.update_group env.engine fault now row db)
          (λ fault now id db.
            groups_of-GroupWrite v sub diff env.engine (update fault now row mine))

    create_row-Keeps :
        (sub : String) (row : Rows.Group)
        → v ≢ sub
        → row.user_sub ≡ sub
        → Keeps v (
            Groups.store_write env
              (λ fault now id db. Table.create_group env.engine fault now id row db))
    create_row-Keeps sub row diff mine =
        store_write-Keeps v env
          (λ fault now id db. Table.create_group env.engine fault now id row db)
          (λ fault now id db.
            groups_of-GroupWrite v sub diff env.engine (create fault now id row mine))

    -- The same insertion, where the tool reads the store's result.
    insert-Keeps :
        (sub : String) (row : Rows.Group)
        → v ≢ sub
        → row.user_sub ≡ sub
        → Keeps v (write env (λ fault now id db. Table.create_group env.engine fault now id row db))
    unfolding write
    insert-Keeps sub row diff mine = record {
      from = λ w.
          groups_of-GroupWrite v sub diff env.engine
            (create (env.fault w.ticks) (env.clock w.ticks) (env.uuid w.ticks) row mine);
    }

    pub leave_group-Keeps :
        (who : Option String) (ref : String)
        → who ≢ some v
        → Keeps v (Groups.leave_group env who ref)
    unfolding Groups.leave_group
    leave_group-Keeps who ref other = for_row v env who ref _ other (λ sub row diff mine.
        bind-Keeps v _ _
          (store_write-Keeps v env
            (λ fault now id db. Table.delete_group env.engine fault sub row.id db)
            (λ fault now id db. groups_of-GroupWrite v sub diff env.engine (delete fault row.id)))
          (λ x. lift-Keeps v _))

    pub set_active_participant-Keeps :
        (who : Option String) (ref you : String)
        → who ≢ some v
        → Keeps v (Groups.set_active_participant env who ref you)
    unfolding Groups.set_active_participant
    set_active_participant-Keeps who ref you other =
        for_row v env who ref _ other (λ sub row diff mine.
          bind-Keeps v _ _ (get_group-Keeps v env row.base_url row.spliit_group_id) (λ group.
            bind-Keeps v _ _
              (lift-Keeps v (
                found_or you (participant_names group)
                  (find_participant_by_name env.fold group you)))
              (λ p.
                bind-Keeps v _ _
                  (update_row-Keeps sub
                    (record row {
                      participant_id = p.id;
                      participant_name = p.name;
                      group_name = group.name;
                      currency = group.currency;
                    })
                    diff mine)
                  (λ x. lift-Keeps v _))))

    default_write-Keeps :
        (sub id : String)
        → Keeps v (
            Groups.store_write env
              (λ fault now fresh db. Users.set_default_group env.engine fault now sub id db))
    default_write-Keeps sub id =
        store_write-Keeps v env
          (λ fault now fresh db. Users.set_default_group env.engine fault now sub id db)
          (λ fault now fresh db. groups_of-set_default_group v env.engine fault now sub id db)

    pub set_default_group-Keeps :
        (who : Option String) (ref : String) (clear : Bool)
        → Keeps v (Groups.set_default_group env who ref clear)
    unfolding Groups.set_default_group
    set_default_group-Keeps who ref clear = bind-Keeps v _ _ (lift-Keeps v _) (λ sub.
        if-Keeps v clear _ _ (bind-Keeps v _ _ (default_write-Keeps sub "") (λ x. lift-Keeps v _)) (
          bind-Keeps v _ _ (resolve_explicit-Keeps v env sub ref)
            (λ row. bind-Keeps v _ _ (default_write-Keeps sub row.id) (λ x. lift-Keeps v _))))

    details-Keeps : (row : Rows.Group) → Keeps v (Groups.get_group_details env row)
    unfolding Groups.get_group_details
    details-Keeps row =
        Guarded-Keeps v _ (
          bind-Guarded Any _ _ (send-Guarded Any env env.api.details _ tt)
            (λ o. lift-Guarded Any _))

    send_group-Keeps :
        (row : Rows.Group) (form : GroupForm) (me : Option String)
        → Keeps v (Groups.send_group env row form me)
    unfolding Groups.send_group
    send_group-Keeps row form me = Guarded-Keeps v _ (send-Guarded Any env env.api.accepted _ tt)

    follow-own :
        (o : Option Participant) (row : Rows.Group) (g : Group)
        → (Groups.follow o row g).user_sub ≡ row.user_sub
    follow-own none row g = refl
    follow-own (some p) row g = refl

    pub update_group-Keeps :
        (who : Option String) (ref : String) (edits : Edits)
        → who ≢ some v
        → Keeps v (Groups.update_group env who ref edits)
    unfolding Groups.update_group
    update_group-Keeps who ref edits other = for_row v env who ref _ other (λ sub row diff mine.
        if-Keeps v (Groups.is_empty_edit edits) _ _ (lift-Keeps v _) (
          bind-Keeps v _ _ (details-Keeps row) (λ d. bind-Keeps v _ _ (lift-Keeps v _) (λ f.
            bind-Keeps v _ _ (send_group-Keeps row f.0 _) (λ x.
              bind-Keeps v _ _ (get_group-Keeps v env row.base_url row.spliit_group_id) (λ updated.
                bind-Keeps v _ _
                  (update_row-Keeps sub
                    (Groups.follow (find_participant updated row.participant_id) row updated) diff
                    (follow-own (find_participant updated row.participant_id) row updated ∙ mine))
                  (λ y. lift-Keeps v _)))))))

    next_attempt-Keeps :
        (w : World) (r : Outcome Rows.Group × World) (later : Action Rows.Group)
        → groups_of v r.1.db ≡ groups_of v w.db
        → Keeps v later
        → groups_of v (Groups.next_attempt env r later).1.db ≡ groups_of v w.db
    next_attempt-Keeps w (o, w') later e k = elim (Bool-cases (Groups.is_conflict o)) [
      | inl taken ↦ rw taken (k.from w' ∙ e)
      | inr final ↦ rw final e
    ]

    attempts-Keeps :
        (sub : String) (diff : v ≢ sub) (left attempt : ℕ) (row : Rows.Group)
        → row.user_sub ≡ sub
        → Keeps v (Groups.attempts env left attempt row)
    unfolding Groups.attempts
    attempts-Keeps sub diff zero attempt row mine = record { from = λ w. refl }
    attempts-Keeps sub diff (suc left) attempt row mine = record {
      from = λ w.
          next_attempt-Keeps w _ _
            ((create_row-Keeps sub (record row { alias = Groups.candidate_alias row.alias attempt })
                diff mine).from
              w)
            (attempts-Keeps sub diff left (suc attempt) row mine);
    }

    pub register_group-Keeps :
        (sub base_url : String) (group : Group) (alias display_name : String)
        → v ≢ sub
        → Keeps v (Groups.register_group env sub base_url group alias display_name)
    unfolding Groups.register_group
    register_group-Keeps sub base_url group alias display_name diff =
        attempts-Keeps sub diff 10 0
          (Groups.new_row sub base_url group alias
            (find_participant_by_name env.fold group display_name))
          refl

    pub join_group-Keeps :
        (sub base_url id you given : String)
        → v ≢ sub
        → Keeps v (Groups.join_group env sub base_url id you given)
    unfolding Groups.join_group
    join_group-Keeps sub base_url id you given diff =
        if-Keeps v (is_blank you) _ _ (lift-Keeps v _) (
          bind-Keeps v _ _ (get_group-Keeps v env base_url id) (λ group.
            bind-Keeps v _ _
              (lift-Keeps v (
                found_or you (participant_names group)
                  (find_participant_by_name env.fold group you)))
              (λ p.
                bind-Keeps v _ _
                  (insert-Keeps sub
                    (Groups.new_row sub base_url group
                      (if is_blank given then group.name else trim_space given) (some p))
                    diff refl)
                  (λ r. lift-Keeps v (
                    Groups.joined env (if is_blank given then group.name else trim_space given)
                      r)))))
