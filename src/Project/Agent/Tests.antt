-- ===== src/Project/Agent/Tests.antt =====
-- A project that is registered, and one that the agent-server no longer knows.
use appx.Base.{◌≡◌, refl, inr, true, none, some, List, [], ◌∷◌}
use appx.Text.{Text, codes}
use appx.Project.Store.{Project, Row, find_id, new_row, scan_into, remove_id}
use appx.Project.Store.Create.{Created, no_failures}
use appx.Project.Manager.{
  EnvTarget, Manager, delete_project, deployment_for, manager_create, manager_delete,
}
use appx.Project.Agent.{
  HttpClient, Client, Request, status_error, new_client, registrar, requests, marshal_deployment,
  client_delete_project,
}
use appx.Project.Agent.Url.{public_url}
use appx.Project.Agent.Laws.{Registers, manager_create-Registers}

-- It answers a registration with 200 and a removal with 404.
abbrev server : HttpClient
server = record {
  parses = (λ url. true);
  answer = (λ r. elim r.body [ none ↦ some 404 | some b ↦ some 200 ]);
}

abbrev client : Client
client = new_client server (codes "http://127.0.0.1:4001//") (codes "secret")

abbrev manager : Manager
manager = record {
  project_root = [];
  base_domain = codes "localhost";
  http_mode = true;
  external_port = 8080;
  agent = some (registrar client);
}

trimmed : client.base_url ≡ codes "http://127.0.0.1:4001"
unfolding new_client appx.Text.trim_right appx.Text.text_eq
trimmed = refl

unset :
    marshal_deployment
      (record { dev = record { port = 0; url = [] }; prod = record { port = 0; url = [] } })
    ≡ []
unfolding marshal_deployment appx.Project.Agent.put_target appx.Project.Agent.marshal_target
    appx.Text.text_eq
unset = refl

abbrev broken : Client
broken =
    new_client (record { parses = (λ url. true); answer = (λ r. some 500) }) (codes "http://a") []

refused : (client_delete_project broken (codes "shop")).result ≡ some (status_error 500)
unfolding client_delete_project appx.Project.Agent.send appx.Project.Agent.new_request new_client
    appx.Project.Agent.judge
refused = refl

abbrev shop : Project
shop = scan_into (new_row (codes "1") (codes "shop") 10000 10001 5)

created :
    (manager_create manager no_failures true (codes "1") (codes "shop") 5 []).result ≡ inr shop
unfolding manager_create appx.Project.Store.create appx.Project.Name.validate_name
    appx.Project.Name.name_matches appx.Project.Name.tail_matches appx.Text.has_suffix
    appx.Project.Store.create_tx appx.Project.Ports.next_available_port_pair appx.Project.Ports.scan
    appx.Project.Store.used_ports appx.Project.Store.violates_unique appx.Project.Store.get find_id
    new_row registrar appx.Project.Agent.succeeds appx.Project.Agent.perform
    appx.Project.Agent.client_ensure_project appx.Project.Agent.send appx.Project.Agent.with_json
    appx.Project.Agent.new_request appx.Project.Agent.judge appx.Project.Agent.payload new_client
created = refl

manager_create-Registers_example :
    Created
      (codes "1")
      (codes "shop")
      5
      []
      shop
      (manager_create manager no_failures true (codes "1") (codes "shop") 5 []).rows
    × ((r : Request) × (requests client
            (manager_create manager no_failures true (codes "1") (codes "shop") 5 []).calls
          ≡ r ∷ [])
        × Registers client shop.name
            (record {
              dev = record { port = 10001; url = public_url manager (codes "shop-dev") };
              prod = record { port = 10000; url = public_url manager (codes "shop") };
            })
            r)
unfolding scan_into new_row
manager_create-Registers_example =
    manager_create-Registers client manager no_failures true (codes "1") (codes "shop") 5 [] shop
      refl created

abbrev one_row : List Row
one_row = new_row (codes "1") (codes "shop") 10000 10001 5 ∷ []

-- The answer is 404.
deleted : (manager_delete manager true true (codes "1") one_row).result ≡ none
unfolding manager_delete appx.Project.Store.get find_id appx.Text.text_eq new_row registrar
    appx.Project.Agent.succeeds appx.Project.Agent.perform client_delete_project
    appx.Project.Agent.send appx.Project.Agent.new_request new_client appx.Project.Agent.judge
    appx.Project.Manager.drop_row appx.Project.Store.delete
deleted = refl
