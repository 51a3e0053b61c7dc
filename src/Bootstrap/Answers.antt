-- ===== src/Bootstrap/Answers.antt =====
-- internal/resolver/bootstrap.go: that a host has one resolution at a time.
use dns_automatic_traffic_sp.Base.Text.{Text}
