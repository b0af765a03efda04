-- ===== src/Project/Agent/Laws.antt =====
-- What the client tells the agent-server when the manager creates or deletes a project.
use appx.Base.{
  subst, ap, ℕ, ◌≡◌, refl, sym, ◌∙◌, ◌⊎◌, inl, inr, Bool, true, Option, none, some, List, [], ◌∷◌,
  ◌++◌, arith, ◌==◌, ◌||◌, if◌then◌else◌,
}
use appx.Text.{Text, codes, text_eq}
use appx.Project.Store.{Project, Row, Failures, find_id, remove_id}
use appx.Project.Store.Create.{Created}
use appx.Project.Manager.{
  Deployment, Manager, deployment_for, ensure_project, delete_project, manager_create,
  manager_delete,
}
use appx.Project.Manager.Laws.{calls_of, accepts, manager_create_succeeds, manager_delete_result}
use appx.Project.Agent.Url.{public_url, deployed}
use appx.Project.Agent.Wire.{read_deployment, read-marshal_deployment}
use appx.Project.Agent.{
  Payload, Request, Client, payload, new_request, judge, send, with_json, client_ensure_project,
  client_delete_project, perform, succeeds, registrar, requests,
}

-- The request that registers a project: it is authorized by the token, if there is one, and whoever
-- reads its body finds the name and the deployment.
pub record Registers (c : Client) (name : Text) (dep : Deployment) (r : Request) : Type 0 where
  pub method : r.method ≡ codes "POST"
  pub url : r.url ≡ c.base_url ++ codes "/v1/projects"
  pub json : r.content_type ≡ some (codes "application/json")
  pub authorization :
      r.authorization ≡ (if text_eq c.token [] then none else some (codes "Bearer " ++ c.token))
  pub body :
      (b : Payload) × (r.body ≡ some b) × (b.name ≡ name) × (read_deployment b.deployment ≡ dep)
  pub answered : c.http.answer r ≡ some 200

pub record Removes (c : Client) (name : Text) (r : Request) : Type 0 where
  pub method : r.method ≡ codes "DELETE"
  pub url : r.url ≡ c.base_url ++ (codes "/v1/projects/" ++ name)
  pub authorization :
      r.authorization ≡ (if text_eq c.token [] then none else some (codes "Bearer " ++ c.token))
  pub body : r.body ≡ none
  pub answered : (c.http.answer r ≡ some 200) ⊎ (c.http.answer r ≡ some 404)

judged :
    (good : ℕ → Bool) (o : Option ℕ)
    → succeeds (judge good o) ≡ true
    → (status : ℕ) × (o ≡ some status) × (good status ≡ true)
unfolding succeeds judge
judged good none h = ground (arith, h)
judged good (some status) h = (status, refl, ground (arith, h))

sent-success :
    (c : Client) (good : ℕ → Bool) (o : Option Request)
    → succeeds (send c good o).result ≡ true
    → (r : Request) × (o ≡ some r)
      × ((send c good o).sent ≡ r ∷ [])
      × ((status : ℕ) × (c.http.answer r ≡ some status) × (good status ≡ true))
unfolding succeeds send
sent-success c good none h = ground (arith, h)
sent-success c good (some r) h = (r, refl, refl, judged good (c.http.answer r) h)

plain_request : Client → Text → Text → Option Payload → Request
plain_request c method path body = record {
  method = method;
  url = c.base_url ++ path;
  authorization = if text_eq c.token [] then none else some (codes "Bearer " ++ c.token);
  content_type = none;
  body = body;
}

new_request-plain :
    (c : Client) (method path : Text) (body : Option Payload) (r : Request)
    → new_request c method path body ≡ some r
    → plain_request c method path body ≡ r
unfolding new_request plain_request
new_request-plain c method path body r h = ground (arith, h)

with_json-plain :
    (c : Client) (method path : Text) (body : Option Payload) (r : Request)
    → with_json (new_request c method path body) ≡ some r
    → (record (plain_request c method path body) { content_type = some (codes "application/json") })
      ≡ r
unfolding new_request plain_request with_json
with_json-plain c method path body r h = ground (arith, h)

registered :
    (c : Client) (name : Text) (dep : Deployment)
    → registrar c (ensure_project name dep) ≡ true
    → (r : Request) × (requests c (ensure_project name dep ∷ []) ≡ r ∷ []) × Registers c name dep r
unfolding registrar requests perform client_ensure_project plain_request
registered c name dep h =
    let (r, built, told, (status, answer, good)) =
      sent-success c (λ status. status == 200)
        (with_json (new_request c (codes "POST") (codes "/v1/projects") (some (payload name dep))))
        h in
    let e =
      with_json-plain c (codes "POST") (codes "/v1/projects") (some (payload name dep)) r built in
    (
      r,
      ap (λ l. l ++ []) told,
      record {
        method = sym (ap (λ q. q.method) e);
        url = sym (ap (λ q. q.url) e);
        json = sym (ap (λ q. q.content_type) e);
        authorization = sym (ap (λ q. q.authorization) e);
        body = (
          payload name dep,
          sym (ap (λ q. q.body) e),
          unfold payload in refl,
          unfold payload in read-marshal_deployment dep,
        );
        answered = ground (arith, answer, good);
      },
    )

removed :
    (c : Client) (name : Text)
    → registrar c (delete_project name) ≡ true
    → (r : Request) × (requests c (delete_project name ∷ []) ≡ r ∷ []) × Removes c name r
unfolding registrar requests perform client_delete_project plain_request
removed c name h =
    let (r, built, told, (status, answer, good)) =
      sent-success c (λ status. status == 200 || status == 404)
        (new_request c (codes "DELETE") (codes "/v1/projects/" ++ name) none) h in
    let e = new_request-plain c (codes "DELETE") (codes "/v1/projects/" ++ name) none r built in
    (
      r,
      ap (λ l. l ++ []) told,
      record {
        method = sym (ap (λ q. q.method) e);
        url = sym (ap (λ q. q.url) e);
        authorization = sym (ap (λ q. q.authorization) e);
        body = sym (ap (λ q. q.body) e);
        answered = ground (arith, answer, good);
      },
    )

-- If the manager's agent-server is the client, Create that returns a project has added its row, and
-- has sent exactly one request: it registers the project's name, for the development environment the
-- project's second port and the address of `<name>-dev`, and for production its first port and the
-- address of `<name>`, and was answered with 200.
pub manager_create-Registers :
    (c : Client) (m : Manager) (fails : Failures) (delete_ok : Bool) (id name : Text) (now : ℕ)
    (rows : List Row) (p : Project)
    → m.agent ≡ some (registrar c)
    → (manager_create m fails delete_ok id name now rows).result ≡ inr p
    → Created id name now rows p (manager_create m fails delete_ok id name now rows).rows
      × ((r : Request) × (requests c (manager_create m fails delete_ok id name now rows).calls
            ≡ r ∷ [])
          × Registers c p.name
              (record {
                dev = record { port = p.dev_port; url = public_url m (p.name ++ codes "-dev") };
                prod = record { port = p.assigned_port; url = public_url m p.name };
              })
              r)
manager_create-Registers c m fails delete_ok id name now rows p agent h =
    let (created, accepted, told) =
      manager_create_succeeds m fails delete_ok id name now rows p h in
    let call = ensure_project p.name (deployment_for m p) in
    let (r, sent, registers) =
      registered c p.name (deployment_for m p)
        (subst (λ a. accepts a call ≡ true) agent accepted) in
    (
      created,
      (
        r,
        ap (requests c) (told ∙ ap (λ a. calls_of a call) agent) ∙ sent,
        subst (λ d. Registers c p.name d r) (deployed m p) registers,
      ),
    )

-- If the manager's agent-server is the client, Delete that returns no error has found the project and
-- removed exactly the rows of its id, and has sent exactly one request: it removes the project by its
-- name, and was answered with 200 or 404.
pub manager_delete-Removes :
    (c : Client) (m : Manager) (get_ok delete_ok : Bool) (id : Text) (rows : List Row)
    → m.agent ≡ some (registrar c)
    → (manager_delete m get_ok delete_ok id rows).result ≡ none
    → (row : Row) × (find_id id rows ≡ some row)
      × ((manager_delete m get_ok delete_ok id rows).rows ≡ remove_id id rows)
      × ((r : Request) × (requests c (manager_delete m get_ok delete_ok id rows).calls ≡ r ∷ [])
          × Removes c row.name r)
manager_delete-Removes c m get_ok delete_ok id rows agent h =
    elim (manager_delete_result m get_ok delete_ok id rows) [
      | inl (e, bad, same) ↦ ground (arith, h, bad)
      | inr (fine, row, found, gone, accepted, told) ↦
          (let call = delete_project row.name in
            let (r, sent, removes) =
              removed c row.name (subst (λ a. accepts a call ≡ true) agent accepted) in
            (
              row,
              found,
              gone,
              (r, ap (requests c) (told ∙ ap (λ a. calls_of a call) agent) ∙ sent, removes),
            ))
    ]
