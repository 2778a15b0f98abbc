-- ===== src/Services/Auth/Accounts.antt =====
-- An account from its creation to a login.
use mini_agent_go.Infra.Table.{Table}
