-- ===== src/Project/Agent.antt =====
-- internal/agentserver/client.go: the client of the agent-server that the manager calls. net/http is
-- an argument: which URLs it parses, and the status that each request gets, if it gets one. A body
-- stands for its JSON.
pub mod Wire
pub mod Url
pub mod Laws
mod Tests
use appx.Base.{
  ℕ, ◌==◌, Bool, true, false, ◌&&◌, ◌||◌, Option, none, some, List, [], ◌∷◌, ◌++◌, if◌then◌else◌,
}
use appx.Base.Maps.{insert}
use appx.Text.{Text, codes, text_eq, trim_right}
use appx.Project.Manager.{
  EnvTarget, Deployment, AgentCall, AgentRegistrar, ensure_project, delete_project,
}

-- A field that is dropped from the JSON is `none`.
pub record WireTarget : Type 0 where
  pub port : Option ℕ
  pub url : Option Text

pub record Payload : Type 0 where
  pub name : Text
  pub deployment : Option (List (Text × WireTarget))

pub record Request : Type 0 where
  pub method : Text
  pub url : Text
  pub authorization : Option Text
  pub content_type : Option Text
  pub body : Option Payload

pub record HttpClient : Type 0 where
  pub parses : Text → Bool
  pub answer : Request → Option ℕ

pub record Client : Type 0 where
  pub base_url : Text
  pub token : Text
  pub http : HttpClient

pub data ClientError : Type 0 where
  build_error call_error : ClientError
  status_error : ℕ → ClientError

unfoldable pub new_client : HttpClient → Text → Text → Client
new_client http base_url token = record {
  base_url = trim_right 47 base_url;
  token = token;
  http = http;
}

-- `omitempty` of the two fields.
unfoldable pub wire_target : EnvTarget → WireTarget
wire_target target = record {
  port = if target.port == 0 then none else some target.port;
  url = if text_eq target.url [] then none else some target.url;
}

unfoldable pub marshal_target : EnvTarget → Option WireTarget
marshal_target target =
    if target.port == 0 && text_eq target.url [] then none else some (wire_target target)

unfoldable pub put_target :
    Text → Option WireTarget → List (Text × WireTarget) → List (Text × WireTarget)
put_target key none deployment = deployment
put_target key (some target) deployment = insert key target deployment

unfoldable pub marshal_deployment : Deployment → List (Text × WireTarget)
marshal_deployment dep =
    put_target (codes "prod") (marshal_target dep.prod)
      (put_target (codes "dev") (marshal_target dep.dev) [])

unfoldable pub filled : List (Text × WireTarget) → Option (List (Text × WireTarget))
filled [] = none
filled (t ∷ deployment) = some (t ∷ deployment)

unfoldable pub payload : Text → Deployment → Payload
payload name dep = record { name = name; deployment = filled (marshal_deployment dep) }

unfoldable pub new_request : Client → Text → Text → Option Payload → Option Request
new_request c method path body =
    if c.http.parses (c.base_url ++ path)
    then some (record {
      method = method;
      url = c.base_url ++ path;
      authorization = if text_eq c.token [] then none else some (codes "Bearer " ++ c.token);
      content_type = none;
      body = body;
    })
    else none

-- The error of a call, if it returns one, and the request that it sent, if it came to that.
pub record Reply : Type 0 where
  pub result : Option ClientError
  pub sent : List Request

unfoldable pub judge : (ℕ → Bool) → Option ℕ → Option ClientError
judge good none = some call_error
judge good (some status) = if good status then none else some (status_error status)

unfoldable pub send : Client → (ℕ → Bool) → Option Request → Reply
send c good none = record { result = some build_error; sent = [] }
send c good (some r) = record { result = judge good (c.http.answer r); sent = r ∷ [] }

unfoldable pub with_json : Option Request → Option Request
with_json none = none
with_json (some r) = some (record r { content_type = some (codes "application/json") })

unfoldable pub client_ensure_project : Client → Text → Deployment → Reply
client_ensure_project c name dep =
    send c (λ status. status == 200)
      (with_json (new_request c (codes "POST") (codes "/v1/projects") (some (payload name dep))))

unfoldable pub client_delete_project : Client → Text → Reply
client_delete_project c id =
    send c (λ status. status == 200 || status == 404)
      (new_request c (codes "DELETE") (codes "/v1/projects/" ++ id) none)

unfoldable pub perform : Client → AgentCall → Reply
perform c (ensure_project name dep) = client_ensure_project c name dep
perform c (delete_project id) = client_delete_project c id

unfoldable pub succeeds : Option ClientError → Bool
succeeds none = true
succeeds (some e) = false

-- The client in the place of the manager's AgentRegistrar.
unfoldable pub registrar : Client → AgentRegistrar
registrar c call = succeeds (perform c call).result

unfoldable pub requests : Client → List AgentCall → List Request
requests c [] = []
requests c (call ∷ calls) = (perform c call).sent ++ requests c calls
