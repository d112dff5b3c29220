-- ===== src/MainWindow.antt =====
-- BaseStation/BaseStation/MainWindow.xaml.cs: the base station's window, one file for its state and
-- one for each of its threads and callbacks.
pub mod State
pub mod Receive
pub mod Connect
pub mod Buttons
pub mod Exchange
pub mod Image
pub mod Network
pub mod Joystick
pub mod Ready
