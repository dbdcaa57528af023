-- ===== src/Store/Writer/Early.antt =====
-- internal/store/sqlite/writer.go: a reply that the bus delivers before the row of its probe.
