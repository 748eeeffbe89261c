-- ===== src/AuthGate.antt =====
-- Which requests reach the API: app/core/auth_contract.py, app/core/emby_proxy_request.py,
-- app/core/auth_middleware.py and app/core/csrf_middleware.py.
pub mod Contract
pub mod Proxy
pub mod Gate
pub mod Entry
pub mod Forged
pub mod Csrf
mod Tests
