-- ===== src/Mail/Compose.antt =====
-- How a shell reads the command line of lab5/zad2/main.c.
