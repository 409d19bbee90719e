-- ===== src/ControlApi/Templates/Tenancy.antt =====
-- Whose callers can change a prompt template through the handlers of
-- apps/control-api/internal/handler/handler.go.
use openserve.Prelude.{
  Bytes, bytes_eq, bytes_eq_iff, [], ◌∷◌, ◌++◌, ℕ, Option, none, some, arith, true, false, ◌≡◌, ◌≢◌,
  refl, Bool-cases, inl, inr, ap, sym, ◌∙◌, select,
}
use openserve.ControlApi.Tables.{Db, PromptTemplate, any, update_where, member_org}
use openserve.ControlApi.Tables.Sole.{
  select-append_other, find-sole, any-find, any-select_none, select-delete_where_sole,
  select-update_where,
}
use openserve.ControlApi.Database.{State}
use openserve.ControlApi.Database.Keeps.{
  Keeps, Allows, Ensures-bind, Ensures-fetch, Ensures-fact, Ensures-check, Ensures-signed_in,
  Keeps-exec_or, Keeps-some_or, Keeps-check, keeps_rules,
}
use openserve.ControlApi.Templates.{
  UpdateTemplate, is_template, is_own, insert_template, update_template, update_found, apply_update,
  delete_template, list_prompt_templates, create_prompt_template, update_prompt_template,
  delete_prompt_template,
}
use openserve.ControlApi.Frames.{
  serve_peers-Keeps, serve_webhooks-Keeps, serve_org-Keeps, serve_keys-Keeps,
  serve_conversations-Keeps, serve_deployments-Keeps, serve_documents-Keeps, serve_lookups-Keeps,
}
use openserve.ControlApi.Routes

-- The template is the only one with its id, and the caller is a member of this org.
pub record IsForeign (id : Bytes) (t : PromptTemplate) (subject org_id : Bytes) (d : Db)
    : Type 0 where
  pub sole : select (is_template id) d.prompt_templates ≡ t ∷ []
  pub belongs : member_org subject d ≡ some org_id

module _ (x : Bytes) (t : PromptTemplate) (subject org_id : Bytes) (other : t.org_id ≢ org_id) where
  abbrev Holds : Db → Type 0
  Holds = IsForeign x t subject org_id

  -- It is no template of the caller's org.
  not_own : (id : Bytes) → is_own id org_id t ≡ false
  not_own id = ground (arith, bytes_eq_iff t.org_id org_id)

  not_found :
      (id : Bytes) (d : Db) → Holds d → any (is_own id org_id) d.prompt_templates ≡ true → id ≢ x
  not_found id d h there same =
      let (y, at, holds) = any-find (is_own id org_id) d.prompt_templates there in
      let named : is_template x y ≡ true =
        ground (arith, bytes_eq_iff y.id id, bytes_eq_iff y.id x) in
      let here =
        find-sole (is_own id org_id) (is_template x) d.prompt_templates y t h.sole at named in
      let own : is_own id org_id t ≡ true = ap (is_own id org_id) (sym here) ∙ holds in
      ground (arith, not_own id)

  insert_template-IsForeign :
      (new : PromptTemplate) (d : Db) → Holds d → Allows Holds (insert_template new d)
  unfolding insert_template member_org
  insert_template-IsForeign new d h = elim (Bool-cases (bytes_eq new.id x)) [
    | inl taken ↦
        let same = (bytes_eq_iff new.id x).0 taken in
        elim (Bool-cases (any (is_template new.id) d.prompt_templates)) [
          | inl there ↦ ground arith
          | inr free ↦
              let none_left = any-select_none (is_template new.id) d.prompt_templates free in
              let sole : select (is_template new.id) d.prompt_templates ≡ t ∷ [] = rw same h.sole in
              cc
        ]
    | inr away ↦
        let after = record d { prompt_templates = d.prompt_templates ++ new ∷ [] } in
        let kept : Holds after = record {
          sole = select-append_other (is_template x) d.prompt_templates new away ∙ h.sole;
          belongs = h.belongs;
        } in
        ground arith
  ]

  update_found-IsForeign :
      (req : UpdateTemplate) (now : ℕ) (id : Bytes) (d : Db) (row : Option PromptTemplate)
      → id ≢ x
      → Holds d
      → Allows Holds (update_found req now id d row)
  unfolding update_found member_org
  update_found-IsForeign req now id d none away h = h
  update_found-IsForeign req now id d (some row) away h =
      let after = record d {
        prompt_templates = update_where (is_template id) (apply_update req now) d.prompt_templates;
      } in
      let kept : Holds after = record {
        sole =
            select-update_where (λ (y : PromptTemplate). y.id) id x (apply_update req now)
              d.prompt_templates away (λ y. refl)
            ∙ h.sole;
        belongs = h.belongs;
      } in
      ground arith

  delete_template-IsForeign :
      (id : Bytes) (d : Db) → Holds d → Allows Holds (delete_template id org_id d)
  unfolding delete_template member_org
  delete_template-IsForeign id d h = record {
    sole =
        select-delete_where_sole (is_template x) (is_own id org_id) d.prompt_templates t h.sole
          (not_own id);
    belongs = h.belongs;
  }

  -- The org that a handler reads for the caller is the caller's.
  same_org :
      (o : Bytes) (d : Db) → Holds d × (member_org subject d ≡ some o) → (org_id ≡ o) × Holds d
  same_org o d (h, e) = let read = sym h.belongs ∙ e in (ground arith, h)

  module _ (caller : Option Bytes) (is_caller : caller ≡ some subject) where
    update-IsForeign :
        (id : Bytes) (body : Option UpdateTemplate) (now : ℕ)
        → Keeps Holds (update_prompt_template caller id body now)
    unfolding update_prompt_template update_template
    update-IsForeign id body now =
        Ensures-signed_in caller _ (λ d h. h)
          λ who e.
            let same : subject ≡ who = ground arith in
            Ensures-fetch _ _ (member_org who) _ (λ d h. h)
              λ o.
                Ensures-fact (org_id ≡ o) Holds _ (λ d (h, f). same_org o d (h, rw same f))
                  λ at.
                    Ensures-bind _ _ (Keeps-some_or _ body) (λ d h. h)
                      λ req.
                        Ensures-fetch _ _ _ _ (λ d h. h)
                          λ exists.
                            Ensures-check _ _ _ (λ d (h, f). h)
                              λ there.
                                Ensures-fact (id ≢ x) Holds _
                                  (λ d (h, f). (not_found id d h (ground arith), h))
                                  λ away.
                                    Ensures-bind _ _ (Keeps-check _ _) (λ d h. h)
                                      λ _.
                                        Ensures-bind _ _
                                          (Keeps-exec_or _ _ _
                                            (λ d h. update_found-IsForeign req now id d _ away h))
                                          (λ d h. h) (λ _. search keeps_rules)

    delete-IsForeign : (id : Bytes) → Keeps Holds (delete_prompt_template caller id)
    unfolding delete_prompt_template
    delete-IsForeign id =
        Ensures-signed_in caller _ (λ d h. h)
          λ who e.
            let same : subject ≡ who = ground arith in
            Ensures-fetch _ _ (member_org who) _ (λ d h. h)
              λ o.
                Ensures-fact (org_id ≡ o) Holds _ (λ d (h, f). same_org o d (h, rw same f))
                  λ at.
                    Ensures-bind _ _
                      (Keeps-exec_or _ _ _ (λ d h. rw (← at) (delete_template-IsForeign id d h)))
                      (λ d h. h) (λ n. search keeps_rules depth 20)

    serve_templates-IsForeign :
        (env : Routes.Env) (call : Routes.Call) (r : Routes.TemplateRoute)
        → call.caller ≡ caller
        → Keeps Holds (Routes.serve_templates env call r)
    unfolding Routes.serve_templates list_prompt_templates create_prompt_template
    serve_templates-IsForeign env call Routes.templates e = search keeps_rules depth 30
    serve_templates-IsForeign env call (Routes.new_template body) e =
        search (keeps_rules, Keeps-exec_or, insert_template-IsForeign) depth 30
    serve_templates-IsForeign env call (Routes.change_template id body) e =
        rw e (update-IsForeign id body call.now)
    serve_templates-IsForeign env call (Routes.drop_template id) e = rw e (delete-IsForeign id)

  same_tables :
      (d d' : Db)
      → d'.prompt_templates ≡ d.prompt_templates
      → d'.members ≡ d.members
      → Holds d
      → Holds d'
  unfolding member_org
  same_tables d d' ts ms h = record {
    sole = ap (select (is_template x)) ts ∙ h.sole;
    belongs = ap (λ rows. member_org subject (record d { members = rows })) ms ∙ h.belongs;
  }

-- No call of a route behind RequireJWT but those of the members, whatever its statements
-- meet, changes or deletes a prompt template of another org than the caller's, as long as the id is
-- the template's alone; nor does it give the caller another org.
pub serve_route-template :
    (env : Routes.Env) (call : Routes.Call) (r : Routes.Route) (s : State) (x : Bytes)
    (t : PromptTemplate) (subject org_id : Bytes)
    → call.caller ≡ some subject
    → t.org_id ≢ org_id
    → ((m : Routes.MemberRoute) → r ≢ Routes.of_members m)
    → IsForeign x t subject org_id s.db
    → IsForeign x t subject org_id (Routes.serve_route env call r s).1.db
unfolding Routes.serve_route
serve_route-template env call (Routes.of_peers r) s x t u o c other e h =
    (serve_peers-Keeps {P = IsForeign x t u o}
        (λ d ps is k. same_tables x t u o other d _ refl refl k) env call r).at
      s h
serve_route-template env call (Routes.of_keys r) s x t u o c other e h =
    (serve_keys-Keeps {P = IsForeign x t u o}
        (λ d rows k. same_tables x t u o other d _ refl refl k) env call r).at
      s h
serve_route-template env call (Routes.of_members r) s x t u o c other e h = absurd (e r refl)
serve_route-template env call (Routes.of_org r) s x t u o c other e h =
    (serve_org-Keeps {P = IsForeign x t u o} (λ d rows k. same_tables x t u o other d _ refl refl k)
        env call r).at
      s h
serve_route-template env call (Routes.of_webhooks r) s x t u o c other e h =
    (serve_webhooks-Keeps {P = IsForeign x t u o}
        (λ d rows k. same_tables x t u o other d _ refl refl k) env call r).at
      s h
serve_route-template env call (Routes.of_templates r) s x t u o c other e h =
    (serve_templates-IsForeign x t u o other call.caller c env call r refl).at s h
serve_route-template env call (Routes.of_conversations r) s x t u o c other e h =
    (serve_conversations-Keeps {P = IsForeign x t u o}
        (λ d rows msgs k. same_tables x t u o other d _ refl refl k) env call r).at
      s h
serve_route-template env call (Routes.of_deployments r) s x t u o c other e h =
    (serve_deployments-Keeps {P = IsForeign x t u o}
        (λ d rows k. same_tables x t u o other d _ refl refl k) env call r).at
      s h
serve_route-template env call (Routes.of_documents r) s x t u o c other e h =
    (serve_documents-Keeps {P = IsForeign x t u o}
        (λ d rows chunks k. same_tables x t u o other d _ refl refl k) env call r).at
      s h
serve_route-template env call (Routes.of_lookups r) s x t u o c other e h =
    (serve_lookups-Keeps {P = IsForeign x t u o} env call r).at s h
