-- ===== src/Vpn/Routing/Refresh.antt =====
-- What a refresh of the node list, which is told `PreservedIP`, leaves to be resumed.
use proxygate.Prelude.{ℕ, false, List, ok, ◌≡◌, ap, sym, ◌∙◌, arith, str_eq}
use proxygate.Model.{Node}
use proxygate.Store.{Database, node, replace_nodes}
use proxygate.Store.Replace.{KeepsMeasurements, replace_nodes-KeepsMeasurements}
use proxygate.Vpn.State.{manual, World}
use proxygate.Vpn.Sections.{set_direct_on, enter_direct}
use proxygate.Vpn.Routing.{preserved_ip}

preserved_ip-paused :
    (w : World)
    → w.manager.connection_paused ≡ false
    → w.manager.selection ≡ manual
    → preserved_ip (set_direct_on w).manager ≡ w.manager.manual_ip
unfolding set_direct_on enter_direct preserved_ip
preserved_ip-paused w p m = ground (arith, p, m)

-- If connections are paused while a node is selected by hand, a refresh that succeeds leaves that
-- node in the database, with its measurements, so that resuming finds it.
pub preserved_ip-refresh :
    (w : World) (db' : Database) (ns : List Node) (t : ℕ) (n : Node)
    → w.manager.connection_paused ≡ false
    → w.manager.selection ≡ manual
    → str_eq w.manager.manual_ip "" ≡ false
    → node w.database w.manager.manual_ip ≡ ok n
    → replace_nodes w.database ns t (preserved_ip (set_direct_on w).manager) ≡ ok db'
    → (new : Node) × (node db' w.manager.manual_ip ≡ ok new) × KeepsMeasurements n new
preserved_ip-refresh w db' ns t n p m named found h =
    replace_nodes-KeepsMeasurements w.database db' ns t w.manager.manual_ip n named found
      (ap (replace_nodes w.database ns t) (sym (preserved_ip-paused w p m)) ∙ h)
