-- ===== src/Scrape.antt =====
-- services/media/scrape_state_machine.py: the workflow of scraping and renaming a file.
pub mod Machine
pub mod Graph
mod Tests
