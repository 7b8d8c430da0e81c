-- ===== src/Service/Requests.antt =====
-- `Service::handle_frontend_request` of src/service.rs, for the requests about clients.
use lan_mouse_pro.Common.{ℕ, Bool, Option, none, some, List, [], ◌∷◌}
use lan_mouse_pro.Client.Manager.{Entry}
use lan_mouse_pro.Client.Slab.{Slab}
use lan_mouse_pro.Client.Types.{Position, IpAddr, InputChannelConfig}
use lan_mouse_pro.Service.Handlers
use lan_mouse_pro.Service.Handlers.{
  Service, Effect, FrontendEvent, with_clients, send, resolve, add_client, set_client_active,
  remove_client, update_fix_ips, update_hostname, update_port, update_pos, update_monitor,
  update_enter_hook, update_input_channels,
}

pub data FrontendRequest : Type 0 where
  activate : ℕ → Bool → FrontendRequest
  create : FrontendRequest
  delete : ℕ → FrontendRequest
  new_fix_ips : ℕ → List IpAddr → FrontendRequest
  new_hostname : ℕ → Option (List ℕ) → FrontendRequest
  new_port : ℕ → ℕ → FrontendRequest
  new_position : ℕ → Position → FrontendRequest
  new_monitor : ℕ → Option (List ℕ) → FrontendRequest
  resolve_dns : ℕ → FrontendRequest
  new_enter_hook : ℕ → Option (List ℕ) → FrontendRequest
  client_input_channels : ℕ → InputChannelConfig → FrontendRequest
  clipboard_to : ℕ → Bool → FrontendRequest

module _ (slab : Slab Entry) where
  -- `None` is a panic of the service.
  unfoldable pub handle_frontend_request : FrontendRequest → Service slab → Option (Service slab)
  handle_frontend_request (FrontendRequest.activate h active) sv =
      some (set_client_active slab h active sv)
  handle_frontend_request FrontendRequest.create sv = add_client slab sv
  handle_frontend_request (FrontendRequest.delete h) sv = some (remove_client slab h sv)
  handle_frontend_request (FrontendRequest.new_fix_ips h ips) sv =
      some (update_fix_ips slab h ips sv)
  handle_frontend_request (FrontendRequest.new_hostname h host) sv =
      some (update_hostname slab h host sv)
  handle_frontend_request (FrontendRequest.new_port h port) sv = some (update_port slab h port sv)
  handle_frontend_request (FrontendRequest.new_position h pos) sv = some (update_pos slab h pos sv)
  handle_frontend_request (FrontendRequest.new_monitor h monitor) sv =
      some (update_monitor slab h monitor sv)
  handle_frontend_request (FrontendRequest.resolve_dns h) sv = some (resolve slab h sv)
  handle_frontend_request (FrontendRequest.new_enter_hook h hook) sv =
      some (update_enter_hook slab h hook sv)
  handle_frontend_request (FrontendRequest.client_input_channels h cfg) sv =
      some (update_input_channels slab h cfg sv)
  handle_frontend_request (FrontendRequest.clipboard_to h enable) sv =
      some (Handlers.set_enable_clipboard_to slab h enable sv)

  unfoldable pub handle_all : List FrontendRequest → Service slab → Option (Service slab)
  unfolding handle_frontend_request
  handle_all [] sv = some sv
  handle_all (r ∷ rs) sv = elim (handle_frontend_request r sv) [
    | none ↦ none
    | some sv' ↦ handle_all rs sv'
  ]
